-- ===== src/Miot/Device/Outcomes.antt =====
-- What a command leaves behind when it succeeds, and what it throws when it fails.
use iot_miniservers.Prelude.{
  ℕ, true, ◌+◌, ◌≡◌, ◌⊎◌, inl, inr, refl, sym, ap, ◌∙◌, Option, none, some, List, [], ◌∷◌, ◌++◌,
  arith, Option-cases,
}
use iot_miniservers.Prelude.Result.{Result, ok, err}
use iot_miniservers.Miot.Error.{
  MiotMethod, MiotError, Thrown, miot_error, other_error, transport_error, after_stamp_refresh,
}
use iot_miniservers.Miot.Device.{
  StampState, StampStore, DiscoverResult, Env, Call, sent, stored, MiotDevice, M, Operation,
  bind_from, handle, final_or, persist_stamp, update_stamp, run_once, run_with_fresh_stamp,
  run_cached, run_with_stamp, require_device_id, load_stamp,
}
use iot_miniservers.Miot.Device.Retry.{run_with_stamp-cached}

module _ {W A B : Type 0} where
  bind_from-ok :
      (r : Result Thrown A) (f : A → M W B) (d : MiotDevice W) (b : B)
      → (bind_from r f d).0 ≡ ok b
      → (a : A) × (r ≡ ok a) × ((f a d).0 ≡ ok b) × (bind_from r f d ≡ f a d)
  bind_from-ok (ok a) f d b h = (a, refl, h, refl)
  bind_from-ok (err e) f d b h = ground arith

  bind_from-err :
      (r : Result Thrown A) (f : A → M W B) (d : MiotDevice W) (x : Thrown)
      → (bind_from r f d).0 ≡ err x
      → (r ≡ err x) ⊎ ((a : A) × (r ≡ ok a) × ((f a d).0 ≡ err x))
  bind_from-err (ok a) f d x h = inr (a, refl, h)
  bind_from-err (err e) f d x h = inl (ground arith)

module _ {W A : Type 0} where
  handle-ok :
      (r : Result Thrown A) (f : Thrown → M W A) (d : MiotDevice W) (a : A)
      → (handle r f d).0 ≡ ok a
      → ((r ≡ ok a) × (handle r f d ≡ (ok a, d)))
        ⊎ ((e : Thrown) × (r ≡ err e) × ((f e d).0 ≡ ok a) × (handle r f d ≡ f e d))
  handle-ok (ok x) f d a h = inl (h, ground arith)
  handle-ok (err e) f d a h = inr (e, refl, h, refl)

  handle-err :
      (r : Result Thrown A) (f : Thrown → M W A) (d : MiotDevice W) (x : Thrown)
      → (handle r f d).0 ≡ err x
      → (e : Thrown) × (r ≡ err e) × ((f e d).0 ≡ err x)
  handle-err (ok a) f d x h = ground arith
  handle-err (err e) f d x h = (e, refl, h)

module _ {W A : Type 0} (env : Env W) (method : MiotMethod) (fn : Operation W A) where
  -- `fn` returned `a` and ended on the stamp that is cached now; where there is a store, the last
  -- call was the one that handed it that very state.
  pub record Ended (a : A) (d : MiotDevice W) : Type 0 where
    pub first : ℕ
    pub device_id : ℕ
    pub before : W
    pub final : Option ℕ
    pub state : StampState
    pub returned : (fn first device_id before).0 ≡ ok (a, final)
    pub cached : d.stamp_state ≡ some state
    pub ended : state.stamp ≡ final_or env method fn final first
    pub kept :
        (env.stamp_store ≡ none) ⊎ ((calls : List Call) × (d.calls ≡ calls ++ stored state ∷ []))

  abbrev Stamped : ℕ → MiotDevice W → Type 0
  Stamped n d =
      (state : StampState) × (d.stamp_state ≡ some state)
      × (state.stamp ≡ n)
      × ((env.stamp_store ≡ none) ⊎ ((calls : List Call) × (d.calls ≡ calls ++ stored state ∷ [])))

  stamp_state-persist_stamp :
      (s : StampState) (d : MiotDevice W) → (persist_stamp env s d).1.stamp_state ≡ d.stamp_state
  unfolding persist_stamp
  stamp_state-persist_stamp s d = elim (Option-cases env.stamp_store) [
    | inl e ↦ rw (e, persist_stamp)
    | inr (store, e) ↦ rw (e, persist_stamp)
  ]

  calls-persist_stamp :
      (s : StampState) (d : MiotDevice W)
      → (env.stamp_store ≡ none)
        ⊎ ((calls : List Call) × ((persist_stamp env s d).1.calls ≡ calls ++ stored s ∷ []))
  unfolding persist_stamp
  calls-persist_stamp s d = elim (Option-cases env.stamp_store) [
    | inl e ↦ inl e
    | inr (store, e) ↦ inr (d.calls, rw (e, persist_stamp))
  ]

  update_stamp-Stamped : (n : ℕ) (d : MiotDevice W) → Stamped n (update_stamp env n d).1
  unfolding update_stamp
  update_stamp-Stamped n d =
      let state : StampState = record { stamp = n; updated_at = (env.now d.world).0 } in
      (state, stamp_state-persist_stamp state _, refl, calls-persist_stamp state _)

  thrown_eq : (e x : Thrown) → ◌≡◌ {A = Result Thrown A} (err e) (err x) → x ≡ e
  thrown_eq e x h = ground arith

  ok_with :
      (x : A × Option ℕ) (a : A)
      → ◌≡◌ {A = Result Thrown A} (ok x.0) (ok a)
      → ◌≡◌ {A = Result Thrown (A × Option ℕ)} (ok x) (ok (a, x.1))
  ok_with x a h = ground arith

  -- Once `fn` has answered, what `run_once` does is to update the stamp.
  run_once-update :
      (n id : ℕ) (d : MiotDevice W) (a : A)
      → (run_once env method fn n id d).0 ≡ ok a
      → (final : Option ℕ) × (d' : MiotDevice W) × ((fn n id d.world).0 ≡ ok (a, final))
        × ((run_once env method fn n id d).1
            ≡ (update_stamp env (final_or env method fn final n) d').1)
  unfolding run_once
  run_once-update n id d a h =
      let (x, answered, h', run) = bind_from-ok (fn n id d.world).0 _ _ a h in
      let (u, updated, returned, run') =
        bind_from-ok (update_stamp env (final_or env method fn x.1 n) _).0 _ _ a h' in
      (
        x.1,
        record d { world = (fn n id d.world).1; calls = d.calls ++ sent n ∷ [] },
        answered ∙ ok_with x a returned,
        ap (λ (t : Result Thrown A × MiotDevice W). t.1) (run ∙ run'),
      )

  run_once-Ended :
      (n id : ℕ) (d : MiotDevice W) (a : A)
      → (run_once env method fn n id d).0 ≡ ok a
      → Ended a (run_once env method fn n id d).1
  run_once-Ended n id d a h =
      let (final, d', returned, run) = run_once-update n id d a h in
      let (state, cached, ended, kept) = update_stamp-Stamped (final_or env method fn final n) d' in
      rw run (record {
        first = n;
        device_id = id;
        before = d.world;
        final = final;
        state = state;
        returned = returned;
        cached = cached;
        ended = ended;
        kept = kept;
      })

  run_with_fresh_stamp-Ended :
      (id : ℕ) (d : MiotDevice W) (a : A)
      → (run_with_fresh_stamp env method fn id d).0 ≡ ok a
      → Ended a (run_with_fresh_stamp env method fn id d).1
  unfolding run_with_fresh_stamp
  run_with_fresh_stamp-Ended id d a h =
      let (fresh, e, h', run) = bind_from-ok (env.handshake d.world).0 _ _ a h in
      elim (handle-ok (run_once env method fn (fresh.stamp + 1) id _).0 _ _ a h') [
        | inl (returned, kept) ↦ rw (run, kept) (run_once-Ended (fresh.stamp + 1) id _ a returned)
        | inr (x, failed, returned, kept) ↦ ground (arith, returned)
      ]

  run_cached-Ended :
      (id : ℕ) (o : Option StampState) (d : MiotDevice W) (a : A)
      → (run_cached env method fn id o d).0 ≡ ok a
      → Ended a (run_cached env method fn id o d).1
  unfolding run_cached
  run_cached-Ended id none d a h = run_with_fresh_stamp-Ended id d a h
  run_cached-Ended id (some s) d a h =
      elim (handle-ok (run_once env method fn (s.stamp + 1) id d).0 _ _ a h) [
        | inl (returned, kept) ↦ rw kept (run_once-Ended (s.stamp + 1) id d a returned)
        | inr (x, failed, returned, kept) ↦ rw kept (run_with_fresh_stamp-Ended id _ a returned)
      ]

  -- A command that returns has ended on the stamp that is cached now, and where there is a stamp
  -- store, the last thing done was to hand it that same state: the next command, here or on
  -- another node, starts behind it. This holds in any state, with or without a cached stamp.
  run_with_stamp-Ended :
      (d : MiotDevice W) (a : A)
      → (run_with_stamp env method fn d).0 ≡ ok a
      → Ended a (run_with_stamp env method fn d).1
  unfolding run_with_stamp
  run_with_stamp-Ended d a h =
      let (id, e, h', run) = bind_from-ok (require_device_id env d).0 _ _ a h in
      let (u, loaded, h'', run') = bind_from-ok (load_stamp env _).0 _ _ a h' in
      rw (run, run') (run_cached-Ended id _ _ a h'')

  -- An attempt with a stamp threw the cause: the operation did, in the world w, or the store did, when it was handed
  -- the stamp behind it.
  abbrev pub Threw : ℕ → ℕ → W → Thrown → Type 0
  Threw n id w cause =
      ((fn n id w).0 ≡ err cause)
      ⊎ ((store : StampStore W) × (state : StampState) × (w' : W) × (env.stamp_store ≡ some store)
          × ((store.set_stamp state w').0 ≡ err cause))

  -- The error behind a retry: a `MiotError` that says that the stamp was refreshed, with what its cause had.
  abbrev pub Wraps : Thrown → Thrown → Type 0
  Wraps (miot_error e) x =
      (y : MiotError) × (x ≡ miot_error y)
      × (y.stamp_refreshed ≡ true)
      × (y.kind ≡ e.kind)
      × (y.method ≡ e.method)
      × (y.code ≡ e.code)
  Wraps (other_error m) x =
      (y : MiotError) × (x ≡ miot_error y)
      × (y.stamp_refreshed ≡ true)
      × (y.kind ≡ transport_error)
      × (y.method ≡ method)
      × (y.code ≡ none)

  -- A handshake in the world w was answered, and the attempt behind it threw the cause of x.
  abbrev pub Retried : ℕ → W → Thrown → Type 0
  Retried id w x =
      (fresh : DiscoverResult) × (cause : Thrown) × ((env.handshake w).0 ≡ ok fresh)
      × Threw (fresh.stamp + 1) id (env.handshake w).1 cause
      × Wraps cause x

  after_stamp_refresh-Wraps :
      (cause : Thrown) (id : ℕ)
      → Wraps cause (miot_error (after_stamp_refresh env.show cause method id))
  unfolding after_stamp_refresh
  after_stamp_refresh-Wraps (miot_error e) id = (_, refl, refl, refl, refl, refl)
  after_stamp_refresh-Wraps (other_error m) id = (_, refl, refl, refl, refl, refl)

  update_stamp-err :
      (n : ℕ) (d : MiotDevice W) (cause : Thrown)
      → (update_stamp env n d).0 ≡ err cause
      → (store : StampStore W) × (state : StampState) × (w' : W) × (env.stamp_store ≡ some store)
        × ((store.set_stamp state w').0 ≡ err cause)
  unfolding update_stamp persist_stamp
  update_stamp-err n d cause h = elim (Option-cases env.stamp_store) [
    | inl alone ↦ absurd (ground (arith, rw (alone, persist_stamp) at h))
    | inr (store, kept) ↦ (store, _, _, kept, rw (kept, persist_stamp) at h)
  ]

  run_once-err :
      (n id : ℕ) (d : MiotDevice W) (cause : Thrown)
      → (run_once env method fn n id d).0 ≡ err cause
      → Threw n id d.world cause
  unfolding run_once
  run_once-err n id d cause h = elim (bind_from-err (fn n id d.world).0 _ _ cause h) [
    | inl threw ↦ inl threw
    | inr (x, answered, h') ↦
        elim (bind_from-err (update_stamp env (final_or env method fn x.1 n) _).0 _ _ cause h') [
          | inl failed ↦ inr (update_stamp-err _ _ cause failed)
          | inr (u, updated, h'') ↦ absurd (ground (arith, h''))
        ]
  ]

  run_with_fresh_stamp-err :
      (id : ℕ) (d : MiotDevice W) (x : Thrown)
      → (run_with_fresh_stamp env method fn id d).0 ≡ err x
      → ((env.handshake d.world).0 ≡ err x) ⊎ Retried id d.world x
  unfolding run_with_fresh_stamp
  run_with_fresh_stamp-err id d x h = elim (bind_from-err (env.handshake d.world).0 _ _ x h) [
    | inl e ↦ inl e
    | inr (fresh, e, h') ↦
        let (cause, failed, thrown) =
          handle-err (run_once env method fn (fresh.stamp + 1) id _).0 _ _ x h' in
        let same : x ≡ miot_error (after_stamp_refresh env.show cause method id) =
          thrown_eq _ x thrown in
        inr (
          fresh,
          cause,
          e,
          run_once-err (fresh.stamp + 1) id _ cause failed,
          rw same (after_stamp_refresh-Wraps cause id),
        )
  ]

  -- For a connected client with a cached stamp, a command that throws has tried a handshake: either the handshake
  -- threw what the command throws; or it was answered, the attempt with the stamp behind its own threw, and the command
  -- throws a `MiotError` that says that the stamp was refreshed and keeps the kind, the method and the code of what the
  -- attempt threw, with a transport error of the command's own method for what is no `MiotError`.
  pub run_with_stamp-err :
      (d : MiotDevice W) (id : ℕ) (s : StampState) (x : Thrown)
      → d.device_id ≡ some id
      → d.stamp_state ≡ some s
      → (run_with_stamp env method fn d).0 ≡ err x
      → (w : W) × (((env.handshake w).0 ≡ err x) ⊎ Retried id w x)
  run_with_stamp-err d id s x connected cached h =
      let h' : (run_cached env method fn id (some s) d).0 ≡ err x =
        ap (λ (t : Result Thrown A × MiotDevice W). t.0)
          (sym (run_with_stamp-cached env method fn d id s connected cached))
        ∙ h in
      unfold run_cached in
      let (e, failed, again) = handle-err (run_once env method fn (s.stamp + 1) id d).0 _ _ x h' in
      (
        (run_once env method fn (s.stamp + 1) id d).1.world,
        run_with_fresh_stamp-err id
            (record (run_once env method fn (s.stamp + 1) id d).1 { stamp_state = none }) x again,
      )
