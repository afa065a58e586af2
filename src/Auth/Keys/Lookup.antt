-- ===== src/Auth/Keys/Lookup.antt =====
-- What a key source releases: the row that counts, the algorithm it insists on, and a cache that
-- shows in no answer.
use iot_miniservers.Prelude.{
  ◌≡◌, inl, inr, refl, sym, ◌∙◌, Bool, true, not, Option, none, some, List, [], ◌∷◌, ◌++◌, Text,
  every, arith, Option-cases, Bool-cases, is_some, ◌==◌, text_eq, list_eqb_iff,
}
use iot_miniservers.Prelude.Dict
use iot_miniservers.Prelude.Dict.{Dict, get-insert}
use iot_miniservers.Prelude.Result.{ok, Result-cases}
use iot_miniservers.Auth.Keys.{
  StaticKey, TrustedIssuer, KeyLookup, KeyLibrary, KeySource, by_issuer, put_row, import_fresh,
  import_key, static_get_key, get_key, mismatches, create_key_source,
}

module _ {V : Type 0} (select : TrustedIssuer → Option V) (i : Text) where
  -- A row that puts nothing under `i`.
  abbrev pub skips : TrustedIssuer → Bool
  skips row = elim (select row) [ none ↦ true | some v ↦ not (row.issuer == i) ]

  get-put_row-skips :
      (row : TrustedIssuer) (table : Dict Text V)
      → skips row ≡ true
      → Dict.get i (put_row select row table) ≡ Dict.get i table
  unfolding put_row
  get-put_row-skips row table h = elim (Option-cases (select row)) [
    | inl e ↦ ground arith
    | inr (v, e) ↦ rw (e, put_row) (get-insert row.issuer i v table ∙ ground arith)
  ]

  get-put_row :
      (row : TrustedIssuer) (table : Dict Text V) (v : V)
      → row.issuer ≡ i
      → select row ≡ some v
      → Dict.get i (put_row select row table) ≡ some v
  unfolding put_row
  get-put_row row table v named selected =
      rw (selected, put_row)
        (get-insert row.issuer i v table ∙ ground (arith, list_eqb_iff row.issuer i))

  by_issuer-skips :
      (rows : List TrustedIssuer) (table : Dict Text V)
      → every skips rows ≡ true
      → Dict.get i (by_issuer select rows table) ≡ Dict.get i table
  unfolding by_issuer
  by_issuer-skips [] table h = refl
  by_issuer-skips (row ∷ rows) table h =
      by_issuer-skips rows (put_row select row table) (ground arith)
      ∙ get-put_row-skips row table (ground arith)

  -- Of the rows for one issuer the last counts: it is what the table holds for that issuer,
  -- whatever the rows before it.
  by_issuer-last :
      (before : List TrustedIssuer) (row : TrustedIssuer) (after : List TrustedIssuer)
      (table : Dict Text V) (v : V)
      → row.issuer ≡ i
      → select row ≡ some v
      → every skips after ≡ true
      → Dict.get i (by_issuer select (before ++ row ∷ after) table) ≡ some v
  unfolding by_issuer
  by_issuer-last [] row after table v named selected skipped =
      by_issuer-skips after (put_row select row table) skipped
      ∙ get-put_row row table v named selected
  by_issuer-last (first ∷ before) row after table v named selected skipped =
      by_issuer-last before row after _ v named selected skipped

module _ {Key : Type 0} (lib : KeyLibrary Key) where
  -- A static key is released only to the algorithm that it is configured for: a token that names
  -- another algorithm gets none.
  get_key-algorithm :
      (q : KeyLookup) (s s' : KeySource Key) (key : StaticKey) (k : Key) (algorithm : Text)
      → Dict.get q.issuer s.static_table ≡ some key
      → q.algorithm ≡ some algorithm
      → get_key lib q s ≡ (ok k, s')
      → algorithm ≡ key.algorithm
  unfolding get_key
  get_key-algorithm q s s' key k algorithm held asked released =
      ground (arith, list_eqb_iff algorithm key.algorithm)

  -- Each imported key is the import of the key configured for its issuer.
  pub record IsFaithful (s : KeySource Key) : Type 0 where
    pub held :
        (i : Text) (k : Key) (key : StaticKey)
        → Dict.get i s.imported ≡ some k
        → Dict.get i s.static_table ≡ some key
        → import_fresh lib key ≡ ok k

  pub IsFaithful-create :
      (issuers : List TrustedIssuer) → IsFaithful (create_key_source lib issuers)
  unfolding create_key_source Dict.get
  IsFaithful-create issuers = record { held = λ i k key h g. ground arith }

  insert-IsFaithful :
      (i : Text) (key : StaticKey) (k : Key) (s : KeySource Key)
      → Dict.get i s.static_table ≡ some key
      → import_fresh lib key ≡ ok k
      → IsFaithful s
      → IsFaithful (record s { imported = Dict.insert i k s.imported })
  insert-IsFaithful i key k s held fresh f = record {
    held = λ j k' key' h g.
        ground (arith, get-insert i j k s.imported, f.held j k' key', list_eqb_iff i j);
  }

  import_key-IsFaithful :
      (i : Text) (key : StaticKey) (s : KeySource Key)
      → Dict.get i s.static_table ≡ some key
      → IsFaithful s
      → IsFaithful (import_key lib i key s).1
  unfolding import_key
  import_key-IsFaithful i key s held f = elim (Option-cases (Dict.get i s.imported)) [
    | inr (k, e) ↦ rw (e, import_key) f
    | inl e ↦ elim (Result-cases (import_fresh lib key)) [
      | inl (k, fresh) ↦ rw (e, import_key) (rw fresh (insert-IsFaithful i key k s held fresh f))
      | inr (m, failed) ↦ rw (e, import_key) (rw failed f)
    ]
  ]

  static_get_key-IsFaithful :
      (q : KeyLookup) (s : KeySource Key) → IsFaithful s → IsFaithful (static_get_key lib q s).1
  unfolding static_get_key
  static_get_key-IsFaithful q s f = elim (Option-cases (Dict.get q.issuer s.static_table)) [
    | inl e ↦ rw (e, static_get_key) f
    | inr (key, e) ↦ elim (Bool-cases (mismatches q.algorithm key)) [
      | inl m ↦ rw (e, static_get_key) (rw m f)
      | inr m ↦ rw (e, static_get_key) (rw m (import_key-IsFaithful q.issuer key s e f))
    ]
  ]

  -- Asking for a key keeps the imported keys faithful.
  pub get_key-IsFaithful :
      (q : KeyLookup) (s : KeySource Key) → IsFaithful s → IsFaithful (get_key lib q s).1
  get_key-IsFaithful q s f = elim (Bool-cases (is_some (Dict.get q.issuer s.static_table))) [
    | inl e ↦ unfold get_key in rw e (static_get_key-IsFaithful q s f)
    | inr e ↦ elim (Bool-cases (is_some (Dict.get q.issuer s.jwks_table))) [
      | inl j ↦ unfold get_key in rw (e, j) f
      | inr j ↦ unfold get_key in rw (e, j) f
    ]
  ]

  import_key-fresh :
      (i : Text) (key : StaticKey) (s : KeySource Key)
      → Dict.get i s.static_table ≡ some key
      → IsFaithful s
      → (import_key lib i key s).0 ≡ import_fresh lib key
  unfolding import_key
  import_key-fresh i key s held f = elim (Option-cases (Dict.get i s.imported)) [
    | inr (k, e) ↦ rw (e, import_key) (sym (f.held i k key e held))
    | inl e ↦ elim (Result-cases (import_fresh lib key)) [
      | inl (k, fresh) ↦ rw (e, import_key) (rw fresh)
      | inr (m, failed) ↦ rw (e, import_key) (rw failed)
    ]
  ]

  IsFaithful-empty : (s : KeySource Key) → IsFaithful (record s { imported = [] })
  unfolding Dict.get
  IsFaithful-empty s = record { held = λ i k key h g. ground arith }

  static_get_key-forget :
      (q : KeyLookup) (s : KeySource Key)
      → IsFaithful s
      → (static_get_key lib q s).0 ≡ (static_get_key lib q (record s { imported = [] })).0
  unfolding static_get_key
  static_get_key-forget q s f = elim (Option-cases (Dict.get q.issuer s.static_table)) [
    | inl e ↦ rw (e, static_get_key)
    | inr (key, e) ↦ elim (Bool-cases (mismatches q.algorithm key)) [
      | inl m ↦ rw (e, static_get_key) (rw m)
      | inr m ↦
          rw (e, static_get_key)
            (rw m (
              import_key-fresh q.issuer key s e f
              ∙ sym (
                  import_key-fresh q.issuer key (record s { imported = [] }) e
                    (IsFaithful-empty s))))
    ]
  ]

  -- The cache shows in no answer: with faithful imported keys, the answer is the one that a source
  -- with nothing imported gives.
  get_key-forget :
      (q : KeyLookup) (s : KeySource Key)
      → IsFaithful s
      → (get_key lib q s).0 ≡ (get_key lib q (record s { imported = [] })).0
  unfolding get_key
  get_key-forget q s f = ground (arith, static_get_key-forget q s f)
