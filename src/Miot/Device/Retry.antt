-- ===== src/Miot/Device/Retry.antt =====
-- How often, and with which stamps, an operation is sent; what a success leaves behind.
use iot_miniservers.Prelude.{
  ℕ, ◌+◌, ◌≡◌, inl, inr, refl, ap, ◌∙◌, Bool, true, false, none, some, List, [], ◌∷◌, ◌++◌,
  append_assoc, append-nil, arith, Option-cases, if◌then◌else◌,
}
use iot_miniservers.Prelude.Result.{Result, ok, err, Result-cases}
use iot_miniservers.Miot.Error.{MiotMethod, Thrown}
use iot_miniservers.Miot.Device.{
  StampState, DiscoverResult, Env, Call, hello, fetched, sent, stored, MiotDevice, M, Operation,
  bind_from, handle, final_or, persist_stamp, update_stamp, run_once, run_with_fresh_stamp,
  run_cached, run_with_stamp, require_device_id, load_stamp,
}

-- The stamps that operations were sent with, oldest first.
abbrev pub stamps : List Call → List ℕ
stamps [] = []
stamps (hello ∷ cs) = stamps cs
stamps (fetched ∷ cs) = stamps cs
stamps (sent n ∷ cs) = n ∷ stamps cs
stamps (stored s ∷ cs) = stamps cs

stamps-append : (xs ys : List Call) → stamps (xs ++ ys) ≡ stamps xs ++ stamps ys
stamps-append [] ys = refl
stamps-append (hello ∷ xs) ys = stamps-append xs ys
stamps-append (fetched ∷ xs) ys = stamps-append xs ys
stamps-append (sent n ∷ xs) ys = ap (λ r. n ∷ r) (stamps-append xs ys)
stamps-append (stored s ∷ xs) ys = stamps-append xs ys

abbrev pub is_ok {ℓ} : {A : Type ℓ} → Result Thrown A → Bool
is_ok (ok a) = true
is_ok (err e) = false

module _ {W A : Type 0} where
  -- A handler or a continuation that sends nothing leaves the stamps.
  handle-stamps :
      (r : Result Thrown A) (f : Thrown → M W A) (d : MiotDevice W)
      → ((e : Thrown) (d' : MiotDevice W) → stamps (f e d').1.calls ≡ stamps d'.calls)
      → stamps (handle r f d).1.calls ≡ stamps d.calls
  handle-stamps (ok a) f d h = refl
  handle-stamps (err e) f d h = h e d

module _ {W A B : Type 0} where
  bind_from-stamps :
      (r : Result Thrown A) (f : A → M W B) (d : MiotDevice W)
      → ((a : A) (d' : MiotDevice W) → stamps (f a d').1.calls ≡ stamps d'.calls)
      → stamps (bind_from r f d).1.calls ≡ stamps d.calls
  bind_from-stamps (ok a) f d h = h a d
  bind_from-stamps (err e) f d h = refl

module _ {W : Type 0} (env : Env W) where
  persist_stamp-stamps :
      (s : StampState) (d : MiotDevice W) → stamps (persist_stamp env s d).1.calls ≡ stamps d.calls
  unfolding persist_stamp
  persist_stamp-stamps s d = elim (Option-cases env.stamp_store) [
    | inl e ↦ rw (e, persist_stamp)
    | inr (store, e) ↦ rw (e, persist_stamp) (stamps-append d.calls (stored s ∷ []) ∙ append-nil _)
  ]

  update_stamp-stamps :
      (n : ℕ) (d : MiotDevice W) → stamps (update_stamp env n d).1.calls ≡ stamps d.calls
  unfolding update_stamp
  update_stamp-stamps n d = persist_stamp-stamps _ _

  module _ {A : Type 0} (method : MiotMethod) (fn : Operation W A) where
    run_once-stamps :
        (n id : ℕ) (d : MiotDevice W)
        → stamps (run_once env method fn n id d).1.calls ≡ stamps d.calls ++ n ∷ []
    unfolding run_once
    run_once-stamps n id d =
        bind_from-stamps (fn n id d.world).0 _ _ (λ x d'.
          bind_from-stamps (update_stamp env (final_or env method fn x.1 n) d').0 _ _
            (λ u d''. refl)
          ∙ update_stamp-stamps (final_or env method fn x.1 n) d')
        ∙ stamps-append d.calls (sent n ∷ [])

    -- The stamps of a call after a fresh handshake.
    abbrev pub after_handshake : Result Thrown DiscoverResult → List ℕ
    after_handshake (ok fresh) = (fresh.stamp + 1) ∷ []
    after_handshake (err e) = []

    run_with_fresh_stamp-stamps :
        (id : ℕ) (d : MiotDevice W)
        → stamps (run_with_fresh_stamp env method fn id d).1.calls
          ≡ stamps d.calls ++ after_handshake (env.handshake d.world).0
    unfolding run_with_fresh_stamp
    run_with_fresh_stamp-stamps id d = elim (Result-cases (env.handshake d.world).0) [
      | inl (fresh, e) ↦
          rw (e, run_with_fresh_stamp)
            (handle-stamps (run_once env method fn (fresh.stamp + 1) id _).0 _ _ (λ x d'. refl)
              ∙ run_once-stamps (fresh.stamp + 1) id _
              ∙ ap (λ l. l ++ (fresh.stamp + 1) ∷ [])
                  (stamps-append d.calls (hello ∷ []) ∙ append-nil _))
      | inr (x, e) ↦ rw (e, run_with_fresh_stamp) (stamps-append d.calls (hello ∷ []))
    ]

    pub require-connected :
        (d : MiotDevice W) (id : ℕ) → d.device_id ≡ some id → require_device_id env d ≡ (ok id, d)
    unfolding require_device_id
    require-connected d id e = ground arith

    load-cached :
        (d : MiotDevice W) (s : StampState) → d.stamp_state ≡ some s → load_stamp env d ≡ (ok tt, d)
    unfolding load_stamp
    load-cached d s e = elim (Option-cases env.stamp_store) [
      | inl none_given ↦ ground arith
      | inr (store, given) ↦ ground arith
    ]

    pub run_with_stamp-cached :
        (d : MiotDevice W) (id : ℕ) (s : StampState)
        → d.device_id ≡ some id
        → d.stamp_state ≡ some s
        → run_with_stamp env method fn d ≡ run_cached env method fn id (some s) d
    unfolding run_with_stamp
    run_with_stamp-cached d id s connected cached =
        rw (require-connected d id connected, run_with_stamp)
          (rw (load-cached d s cached) (ap (λ o. run_cached env method fn id o d) cached))

    -- A connected client with a cached stamp sends its operation with the next stamp, and only if
    -- that attempt throws (the command, or the storing of its stamp) once more, with the stamp
    -- behind that of a fresh handshake, if the device answers the handshake. So no operation is
    -- sent more than twice.
    pub run_with_stamp-stamps :
        (d : MiotDevice W) (id : ℕ) (s : StampState)
        → d.device_id ≡ some id
        → d.stamp_state ≡ some s
        → stamps (run_with_stamp env method fn d).1.calls
          ≡ stamps d.calls
            ++ (s.stamp + 1)
              ∷ (if is_ok (run_once env method fn (s.stamp + 1) id d).0
                  then []
                  else after_handshake
                      (env.handshake (run_once env method fn (s.stamp + 1) id d).1.world).0)
    unfolding run_cached
    run_with_stamp-stamps d id s connected cached =
        let first = run_once env method fn (s.stamp + 1) id d in
        rw (run_with_stamp-cached d id s connected cached) (elim (Result-cases first.0) [
          | inl (a, e) ↦ rw (e, run_cached) (run_once-stamps (s.stamp + 1) id d)
          | inr (x, e) ↦
              rw (e, run_cached)
                (run_with_fresh_stamp-stamps id (record first.1 { stamp_state = none })
                  ∙ ap (λ l. l ++ after_handshake (env.handshake first.1.world).0)
                      (run_once-stamps (s.stamp + 1) id d)
                  ∙ append_assoc (stamps d.calls) ((s.stamp + 1) ∷ [])
                      (after_handshake (env.handshake first.1.world).0))
        ])
