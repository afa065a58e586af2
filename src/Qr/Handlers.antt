-- ===== src/Qr/Handlers.antt =====
-- apis/qr-manager-api/src/handlers, mappers/QrCodeResponseMapper.ts. Rendering is a parameter.
use iot_miniservers.Prelude.{
  ℕ, true, Option, none, some, List, ◌++◌, map, Text, text, strip_trailing, if◌then◌else◌,
}
use iot_miniservers.Prelude.Result.{Result, ok, err}
use iot_miniservers.Qr.{
  QrType, QrCode, QrCodeListFilter, QrCodeUpdate, Problem, not_found, Mongo, Session, create_code,
  get_by_id, get_by_slug, list_codes, update_code, delete_code,
}

pub record QrCodeCreateRequest : Type 0 where
  pub target_url : Text
  pub label : Text
  pub kind : QrType

pub record QrCodeResponse : Type 0 where
  pub code : QrCode
  pub qr_url : Text

pub data QrImageFormat : Type 0 where
  png : QrImageFormat
  svg : QrImageFormat

pub data QrErrorCorrection : Type 0 where
  low : QrErrorCorrection
  medium : QrErrorCorrection
  quartile : QrErrorCorrection
  high : QrErrorCorrection

pub record QrImage (I : Type 0) : Type 0 where
  pub content_type : Text
  pub body : I

pub record QrImageRequest : Type 0 where
  pub id : Text
  pub format : QrImageFormat
  pub size : Option ℕ
  pub ec_level : Option QrErrorCorrection

unfoldable pub compose_qr_url : Text → Text → Text
compose_qr_url base_url slug = strip_trailing 47 base_url ++ (text "/" ++ slug)

unfoldable pub to_response : Text → QrCode → QrCodeResponse
to_response base_url code = record {
  code = code;
  qr_url = compose_qr_url base_url code.fields.slug;
}

abbrev pub missing : Text → Problem
missing key = not_found (text "QR code " ++ (key ++ text " not found."))

module _ {W A B : Type 0} where
  abbrev pub then_map : (A → B) → Result Problem A × W → Result Problem B × W
  then_map f (ok a, w) = (ok (f a), w)
  then_map f (err e, w) = (err e, w)

  -- `if (CommonUtils.isNil(model)) throw new NotFound(...)`, and what follows.
  abbrev pub required :
      Text → (A → W → Result Problem B × W) → Result Problem (Option A) × W → Result Problem B × W
  required key next (ok none, w) = (err (missing key), w)
  required key next (ok (some a), w) = next a w
  required key next (err e, w) = (err e, w)

module _ {W M : Type 0} (mongo : Mongo W M) where
  unfoldable pub redirect_target : Text → QrCode → W → Result Problem Text × W
  redirect_target slug code w =
      if code.fields.active then (ok code.fields.target_url, w) else (err (missing slug), w)

  -- `RedirectHandler.execute`
  unfoldable pub redirect : Text → W → Result Problem Text × W
  redirect slug w = required slug (redirect_target slug) (get_by_slug mongo slug w)

module _ {W M : Type 0} (mongo : Mongo W M) (base_url : Text) where
  unfoldable pub create_handler :
      QrCodeCreateRequest → Session W → Result Problem QrCodeResponse × Session W
  create_handler request s = then_map (to_response base_url) (
      create_code mongo
        (record {
          target_url = request.target_url;
          label = request.label;
          kind = request.kind;
          active = true;
        })
        s)

  unfoldable pub get_handler : Text → W → Result Problem QrCodeResponse × W
  get_handler id w =
      required id (λ code w. (ok (to_response base_url code), w)) (get_by_id mongo id w)

  unfoldable pub list_handler : QrCodeListFilter → W → Result Problem (List QrCodeResponse) × W
  list_handler query w = then_map (map (to_response base_url)) (list_codes mongo query w)

  unfoldable pub update_handler : Text → QrCodeUpdate → W → Result Problem QrCodeResponse × W
  update_handler id request w =
      required id (λ code w. (ok (to_response base_url code), w)) (update_code mongo id request w)

  module _ {I : Type 0} (to_svg : Text → QrErrorCorrection → I)
      (to_png : Text → QrErrorCorrection → Option ℕ → I) where
    abbrev pub level_of : Option QrErrorCorrection → QrErrorCorrection
    level_of none = medium
    level_of (some level) = level

    unfoldable pub render : Text → QrImageFormat → Option ℕ → Option QrErrorCorrection → QrImage I
    render value svg size level = record {
      content_type = text "image/svg+xml";
      body = to_svg value (level_of level);
    }
    render value png size level = record {
      content_type = text "image/png";
      body = to_png value (level_of level) size;
    }

    unfoldable pub image_handler : QrImageRequest → W → Result Problem (QrImage I) × W
    image_handler request w =
        required request.id
          (λ code w. (
            ok (
                render (compose_qr_url base_url code.fields.slug) request.format request.size
                  request.ec_level),
            w,
          ))
          (get_by_id mongo request.id w)

module _ {W M : Type 0} (mongo : Mongo W M) where
  unfoldable pub delete_handler : Text → W → Result Problem (Unit {0}) × W
  delete_handler id w = required id (λ code w. delete_code mongo id w) (get_by_id mongo id w)
