-- ===== src/Otel/Spans.antt =====
-- packages/otel/src/spanTracing.ts.
use iot_miniservers.Prelude.{
  ℕ, ◌+◌, Bool, true, false, Option, none, some, ◌∷◌, Text, or_else, if◌then◌else◌,
}
use iot_miniservers.Prelude.Result.{Result, ok, err}
use iot_miniservers.Otel.{
  SpanKind, internal, client, ApiCall, span_started, exception_recorded, status_failed, span_ended,
  Telemetry, ContextApi,
}

pub record WithSpanOptions (C : Type 0) : Type 0 where
  pub name : Text
  pub tracer : Text
  pub kind : Option SpanKind
  pub parent : Option C
  pub root : Bool
  pub suppress : Bool

-- What runs when a promise settles: what it settles with in the end, and the state behind it.
abbrev pub Reaction : Type 0 → Type 0 → Type 0 → Type 0
Reaction W E A = Result E A → W → Result E A × W

-- How a call of a function ends: a promise is given as what has been put behind it.
pub data Ending (W E A : Type 0) : Type 0 where
  threw : E → Ending W E A
  returned : A → Ending W E A
  promised : Reaction W E A → Ending W E A

abbrev pub put : {C E : Type 0} → ApiCall C E → Telemetry C E → Telemetry C E
put call w = record w { log = call ∷ w.log }

unfoldable pub record_span_error : {C E : Type 0} → ℕ → E → Telemetry C E → Telemetry C E
record_span_error span e w = put (status_failed span e) (put (exception_recorded span e) w)

-- A call of a traced function.
abbrev pub TracedCall : Type 0 → Type 0 → Type 0 → Type 0
TracedCall C E A = Telemetry C E → Ending (Telemetry C E) E A × Telemetry C E

module _ {C : Type 0} (api : ContextApi C) where
  unfoldable pub suppressed_context : WithSpanOptions C → C → C
  suppressed_context options active =
      let base = api.suppress_tracing (or_else options.parent active) in
      if options.root then api.delete_span base else base

module _ {C E A : Type 0} where
  abbrev pub end_settled : ℕ → Result E A × Telemetry C E → Result E A × Telemetry C E
  end_settled span (ok a, w) = (ok a, put (span_ended span) w)
  end_settled span (err e, w) = (err e, put (span_ended span) (record_span_error span e w))

  abbrev pub end_on :
      ℕ → Ending (Telemetry C E) E A × Telemetry C E → Ending (Telemetry C E) E A × Telemetry C E
  end_on span (threw e, w) = (threw e, put (span_ended span) (record_span_error span e w))
  end_on span (returned a, w) = (returned a, put (span_ended span) w)
  end_on span (promised react, w) = (promised (λ r v. end_settled span (react r v)), w)

  unfoldable pub end_on_settle : ℕ → (Option ℕ → TracedCall C E A) → TracedCall C E A
  end_on_settle span fn w = end_on span (fn (some span) w)

  module _ (api : ContextApi C) where
    abbrev pub start_active_span :
        WithSpanOptions C → C → (C → ℕ → TracedCall C E A) → TracedCall C E A
    start_active_span options parent fn w = fn (api.set_span parent w.spans) w.spans (record w {
      spans = w.spans + 1;
      log =
          span_started options.tracer options.name (or_else options.kind internal) options.root
            parent
          ∷ w.log;
    })

    -- The function gets the context that it runs in, and its span, if one was started.
    unfoldable pub with_span :
        WithSpanOptions C → (C → Option ℕ → TracedCall C E A) → C → TracedCall C E A
    with_span options fn active w =
        if options.suppress
        then fn (suppressed_context api options active) none w
        else start_active_span options (or_else options.parent active)
            (λ within span. end_on_settle span (fn within)) w

    unfoldable pub with_entry_point_span :
        WithSpanOptions C → (C → Option ℕ → TracedCall C E A) → C → TracedCall C E A
    with_entry_point_span options fn active w =
        with_span (record options { root = is_none options.parent }) fn active w
      where
        is_none : Option C → Bool
        is_none none = true
        is_none (some c) = false

    unfoldable pub with_client_span :
        WithSpanOptions C → (C → Option ℕ → TracedCall C E A) → C → TracedCall C E A
    with_client_span options fn active w =
        with_span (record options { kind = some client }) fn active w
