-- ===== src/Miot/Device.antt =====
-- packages/miot-device/src/MiotDevice.ts. A method acts on the client's fields and on the world
-- behind it, and may throw; what it wrote before a throw stays written. The world (the network, the
-- clock, the stamp store) answers by functions that are parameters. `calls` records, in order, what
-- the client asked of it.
pub mod Retry
pub mod Outcomes
use iot_miniservers.Prelude.{
  ℕ, ◌+◌, Bool, true, Option, none, some, List, [], ◌∷◌, ◌++◌, Text, text,
}
use iot_miniservers.Prelude.Result.{Result, ok, err}
use iot_miniservers.Miot.Error.{MiotMethod, Thrown, miot_error, other_error, after_stamp_refresh}

pub record StampState : Type 0 where
  pub stamp : ℕ
  pub updated_at : ℕ

pub record DiscoverResult : Type 0 where
  pub device_id : ℕ
  pub stamp : ℕ

pub record StampStore (W : Type 0) : Type 0 where
  pub get_stamp : W → Result Thrown (Option StampState) × W
  pub set_stamp : StampState → W → Result Thrown (Unit {0}) × W

pub record Env (W : Type 0) : Type 0 where
  pub handshake : W → Result Thrown DiscoverResult × W
  pub now : W → ℕ × W
  pub stamp_store : Option (StampStore W)
  pub show : ℕ → Text

pub data Call : Type 0 where
  hello : Call
  fetched : Call
  sent : ℕ → Call
  stored : StampState → Call

pub record MiotDevice (W : Type 0) : Type 0 where
  pub device_id : Option ℕ
  pub stamp_state : Option StampState
  pub world : W
  pub calls : List Call

abbrev pub M : Type 0 → Type 0 → Type 0
M W A = MiotDevice W → Result Thrown A × MiotDevice W

-- `fn` of `runWithStamp`: the result and, after several packets, the last stamp used.
abbrev pub Operation : Type 0 → Type 0 → Type 0
Operation W A = ℕ → ℕ → W → Result Thrown (A × Option ℕ) × W

module _ {W : Type 0} where
  module _ {A B : Type 0} where
    abbrev pub bind_from : Result Thrown A → (A → M W B) → M W B
    bind_from (ok a) f d = f a d
    bind_from (err e) f d = (err e, d)

    infixl 5 ◌>>=◌ ◌>>◌
    abbrev pub ◌>>=◌ : M W A → (A → M W B) → M W B
    ◌>>=◌ m f d = bind_from (m d).0 f (m d).1

    abbrev pub ◌>>◌ : M W A → M W B → M W B
    ◌>>◌ m k = m >>= λ _. k

  module _ {A : Type 0} where
    abbrev pub pure : A → M W A
    pure a d = (ok a, d)

    abbrev pub throw : Thrown → M W A
    throw e d = (err e, d)

    abbrev pub handle : Result Thrown A → (Thrown → M W A) → M W A
    handle (ok a) f d = (ok a, d)
    handle (err e) f d = f e d

    -- `try { m } catch (e) { f(e) }`
    abbrev pub catching : M W A → (Thrown → M W A) → M W A
    catching m f d = handle (m d).0 f (m d).1

    -- A call of the world that is recorded.
    abbrev pub ask : Call → (W → Result Thrown A × W) → M W A
    ask c f d =
        let (answer, world) = f d.world in
        (answer, record d { world = world; calls = d.calls ++ c ∷ [] })

  module _ (env : Env W) where
    abbrev pub clock : M W ℕ
    clock d = let (now, world) = env.now d.world in (ok now, record d { world = world })

    abbrev pub set_state : Option StampState → M W (Unit {0})
    set_state s d = (ok tt, record d { stamp_state = s })

    abbrev persist_to : Option (StampStore W) → StampState → M W (Unit {0})
    persist_to none s = pure tt
    persist_to (some store) s = ask (stored s) (store.set_stamp s)

    unfoldable pub persist_stamp : StampState → M W (Unit {0})
    persist_stamp s = persist_to env.stamp_store s

    unfoldable pub update_stamp : ℕ → M W (Unit {0})
    update_stamp stamp = do
      now ← clock
      set_state (some (record { stamp = stamp; updated_at = now }))
      persist_stamp (record { stamp = stamp; updated_at = now })

    abbrev set_id : ℕ → M W (Unit {0})
    set_id id d = (ok tt, record d { device_id = some id })

    unfoldable pub discover : M W DiscoverResult
    discover = do
      result ← ask hello env.handshake
      set_id result.device_id
      now ← clock
      set_state (some (record { stamp = result.stamp; updated_at = now }))
      persist_stamp (record { stamp = result.stamp; updated_at = now })
      pure result

    unfoldable pub connect : M W (Unit {0})
    unfolding discover
    connect = do discover; pure tt

    unfoldable pub require_device_id : M W ℕ
    require_device_id d = elim d.device_id [
      | none ↦
          (err (other_error (text "Device not connected. Call connect() or discover() first.")), d)
      | some id ↦ (ok id, d)
    ]

    abbrev keep_stored : Option StampState → M W (Unit {0})
    keep_stored none = pure tt
    keep_stored (some s) = set_state (some s)

    abbrev load_from : Option (StampStore W) → Option StampState → M W (Unit {0})
    load_from none s = pure tt
    load_from (some store) (some s) = pure tt
    load_from (some store) none = ask fetched store.get_stamp >>= keep_stored

    -- The store is consulted only while no stamp is cached.
    unfoldable pub load_stamp : M W (Unit {0})
    load_stamp d = load_from env.stamp_store d.stamp_state d

    module _ {A : Type 0} (method : MiotMethod) (fn : Operation W A) where
      abbrev final_or : Option ℕ → ℕ → ℕ
      final_or none stamp = stamp
      final_or (some final) stamp = final

      -- One call of `fn` and the stamp that it leaves behind.
      unfoldable pub run_once : ℕ → ℕ → M W A
      run_once stamp device_id = do
        (result, final) ← ask (sent stamp) (fn stamp device_id)
        update_stamp (final_or final stamp)
        pure result

      unfoldable pub run_with_fresh_stamp : ℕ → M W A
      run_with_fresh_stamp device_id = do
        fresh ← ask hello env.handshake
        catching (run_once (fresh.stamp + 1) device_id)
            (λ e. throw (miot_error (after_stamp_refresh env.show e method device_id)))

      unfoldable pub run_cached : ℕ → Option StampState → M W A
      run_cached device_id none = run_with_fresh_stamp device_id
      run_cached device_id (some s) =
          catching (run_once (s.stamp + 1) device_id)
            (λ e. set_state none >> run_with_fresh_stamp device_id)

      unfoldable pub run_with_stamp : M W A
      run_with_stamp = do
        device_id ← require_device_id
        load_stamp
        λ d. run_cached device_id d.stamp_state d
