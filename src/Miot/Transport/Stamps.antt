-- ===== src/Miot/Transport/Stamps.antt =====
-- Reading several properties: the packets sent and their stamps.
use iot_miniservers.Prelude.{
  ℕ, suc, ◌+◌, ◌-◌, ◌≡◌, sym, ap, ◌∙◌, inl, inr, List, [], ◌∷◌, ◌++◌, append_assoc, append-nil,
  arith, length,
}
use iot_miniservers.Prelude.Int.{ℤ}
use iot_miniservers.Prelude.Result.{ok, err, Result-cases}
use iot_miniservers.Miot.Error.{Thrown}
use iot_miniservers.Miot.Transport.{PropertyResult, MiotResponse, PropertyId, Request, get_request}
use iot_miniservers.Miot.Transport.Commands.{Sent, items_of, next_stamp, get_from, get_each}

-- A packet as it left: its stamp and its request.
abbrev pub Packet : Type 0
Packet = ℕ × Request

module _ {W : Type 0} (show : ℤ → List ℕ) (send : ℕ → ℕ → Request → W → Sent W MiotResponse) where
  -- `send` in a world that remembers the packets.
  abbrev pub logged : ℕ → ℕ → Request → W × List Packet → Sent (W × List Packet) MiotResponse
  logged device_id stamp request (w, log) =
      let (answer, w') = send device_id stamp request w in
      (answer, (w', log ++ (stamp, request) ∷ []))

  -- One packet for each property, in order, each with the stamp behind the one before.
  abbrev pub packets : ℕ → List PropertyId → List Packet
  packets stamp [] = []
  packets stamp (p ∷ props) = (stamp, get_request p) ∷ packets (stamp + 1) props

  module _ (device_id count : ℕ) where
    abbrev run :
        ℕ
        → ℕ
        → List PropertyId
        → List PropertyResult
        → W × List Packet
        → Sent (W × List Packet) (List PropertyResult × ℕ)
    run index current props acc w = get_from show logged device_id count index current props acc w

    run-ok :
        (index current : ℕ) (p : PropertyId) (props : List PropertyId) (acc : List PropertyResult)
        (w : W) (log : List Packet) (response : MiotResponse)
        → (send device_id current (get_request p) w).0 ≡ ok response
        → run index current (p ∷ props) acc (w, log)
          ≡ run
              (index + 1)
              (next_stamp show send index count current)
              props
              (acc ++ items_of show send response.result)
              ((send device_id current (get_request p) w).1, log ++ (current, get_request p) ∷ [])
    unfolding get_from
    run-ok index current p props acc w log response e = rw (e, get_from)

    run-err :
        (index current : ℕ) (p : PropertyId) (props : List PropertyId) (acc : List PropertyResult)
        (w : W) (log : List Packet) (e : Thrown)
        → (send device_id current (get_request p) w).0 ≡ err e
        → (run index current (p ∷ props) acc (w, log)).0 ≡ err e
    unfolding get_from
    run-err index current p props acc w log e failed = rw (failed, get_from)

    abbrev Consecutive : ℕ → List PropertyId → List Packet → ℕ → List Packet → Type 0
    Consecutive current props log final log' =
        (log' ≡ log ++ packets current props) × (final ≡ current + (length props - 1))

    Consecutive-cons :
        (index current : ℕ) (p : PropertyId) (props : List PropertyId) (log log' : List Packet)
        (final : ℕ)
        → count ≡ index + suc (length props)
        → Consecutive
            (next_stamp show send index count current)
            props
            (log ++ (current, get_request p) ∷ [])
            final
            log'
        → Consecutive current (p ∷ props) log final log'
    Consecutive-cons index current p [] log log' final c (log_eq, final_eq) =
        (log_eq ∙ append-nil _, ground arith)
    Consecutive-cons index current p (q ∷ props) log log' final c (log_eq, final_eq) =
        let next : next_stamp show send index count current ≡ current + 1 = ground arith in
        (
          log_eq
              ∙ append_assoc log ((current, get_request p) ∷ []) _
              ∙ ap (λ n. log ++ (current, get_request p) ∷ packets n (q ∷ props)) next,
          omega arith,
        )

    run-packets :
        (index current : ℕ) (props : List PropertyId) (acc : List PropertyResult) (w w' : W)
        (log log' : List Packet) (results : List PropertyResult) (final : ℕ)
        → count ≡ index + length props
        → run index current props acc (w, log) ≡ (ok (results, final), (w', log'))
        → Consecutive current props log final log'
    unfolding get_from
    run-packets index current [] acc w w' log log' results final c h = (
      sym (ap (λ (t : Sent (W × List Packet) (List PropertyResult × ℕ)). t.1.1) h)
          ∙ sym (append-nil log),
      ground arith,
    )
    run-packets index current (p ∷ props) acc w w' log log' results final c h =
        elim (Result-cases (send device_id current (get_request p) w).0) [
          | inr (x, e) ↦
              let failed = run-err index current p props acc w log x e in ground (arith, failed)
          | inl (response, e) ↦ Consecutive-cons index current p props log log' final c (
              run-packets (index + 1) (next_stamp show send index count current) props
                (acc ++ items_of show send response.result)
                (send device_id current (get_request p) w).1 w'
                (log ++ (current, get_request p) ∷ []) log' results final (omega arith)
                (sym (run-ok index current p props acc w log response e) ∙ h))
        ]

  -- When the reading of a list of properties returns, it has sent one packet for each property, in
  -- order and under consecutive stamps, and the last stamp that it reports is the one that its last
  -- packet had (the first stamp itself, for no property or one).
  get_each-packets :
      (device_id stamp : ℕ) (props : List PropertyId) (w w' : W) (log log' : List Packet)
      (results : List PropertyResult) (final : ℕ)
      → get_each show logged device_id stamp props (w, log) ≡ (ok (results, final), (w', log'))
      → (log' ≡ log ++ packets stamp props) × (final ≡ stamp + (length props - 1))
  unfolding get_each
  get_each-packets device_id stamp props w w' log log' results final h =
      run-packets device_id (length props) 0 stamp props [] w w' log log' results final
        (omega arith) h
