-- ===== src/Bridge/Mqtt/Answers.antt =====
-- How the listener answers the messages of its client.
use iot_miniservers.Prelude.{
  ℕ, ◌≡◌, ◌⊎◌, inl, inr, refl, ap, ◌∙◌, true, Option, none, some, List, [], ◌∷◌, ◌++◌, append-nil,
  Text, text, text_eq, Eq, starts_with, starts_with-append,
}
use iot_miniservers.Prelude.Int.{ℤ}
use iot_miniservers.Prelude.Result.{Result, ok, err}
use iot_miniservers.Bridge.Commands.{CommandError, Services}
use iot_miniservers.Bridge.Commands.Execute.{execute, execute-events}
use iot_miniservers.Bridge.Mqtt.{command_topic, response_topic}
use iot_miniservers.Bridge.Mqtt.Topics.{extract_device_id-command_topic}
use iot_miniservers.Bridge.Mqtt.Listener.{
  MqttCommandRequestModel, Broker, Handled, Listener, message, error_reply, command_request,
  value_text, reply_of, handle_request, handle_validated, handle_parsed, handle_message, on_message,
  client_step,
}

module _ {V W J : Type 0} ⦃e : Eq V⦄ (broker : Broker V W J) (env : Services V W) where
  -- A reply that tells of an error and announces nothing.
  abbrev pub Complains : Text → Handled V W → Type 0
  Complains reply h = (starts_with reply (text "error: ") ≡ true) × (h.events ≡ [])

  -- A reply with the value of the command that the payload asks for.
  abbrev pub Obeys : ℤ → List ℕ → W → Text → Handled V W → Type 0
  Obeys device_id payload w reply h =
      (parsed : J) × (r : MqttCommandRequestModel V) × (value : Option V) × (broker.parse payload
        ≡ some parsed)
      × (broker.validate parsed ≡ ok r)
      × ((execute env (command_request device_id r) w).result ≡ ok value)
      × (h.world ≡ (execute env (command_request device_id r) w).world)
      × (h.events ≡ (execute env (command_request device_id r) w).events)
      × (reply ≡ value_text broker r.operation value)

  abbrev pub Replies : ℤ → List ℕ → W → Handled V W → Type 0
  Replies device_id payload w h =
      (reply : Text) × (h.reply ≡ some reply)
      × (Complains reply h ⊎ Obeys device_id payload w reply h)

  error_reply-Complains : (m : Text) → starts_with (error_reply m) (text "error: ") ≡ true
  error_reply-Complains m = starts_with-append (text "error: ") m

  handle_request-Replies :
      (device_id : ℤ) (payload : List ℕ) (w : W) (parsed : J) (r : MqttCommandRequestModel V)
      (result : Result CommandError (Option V))
      → broker.parse payload ≡ some parsed
      → broker.validate parsed ≡ ok r
      → (execute env (command_request device_id r) w).result ≡ result
      → Replies device_id payload w (handle_request broker env device_id r w)
  handle_request-Replies device_id payload w parsed r (ok value) f g h =
      (_, refl, inr (parsed, r, value, f, g, h, refl, refl, ap (reply_of broker r.operation) h))
  handle_request-Replies device_id payload w parsed r (err x) f g h = (
    _,
    refl,
    inl (
      ap (λ o. starts_with (reply_of broker r.operation o) (text "error: ")) h
          ∙ error_reply-Complains (broker.error_text x),
      execute-events env (command_request device_id r) w x h,
    ),
  )

  handle_validated-Replies :
      (device_id : ℤ) (payload : List ℕ) (w : W) (parsed : J)
      (v : Result Text (MqttCommandRequestModel V))
      → broker.parse payload ≡ some parsed
      → broker.validate parsed ≡ v
      → Replies device_id payload w (handle_validated broker env device_id v w)
  handle_validated-Replies device_id payload w parsed (err m) f g =
      (_, refl, inl (error_reply-Complains (text "Validation failed. " ++ m), refl))
  handle_validated-Replies device_id payload w parsed (ok r) f g =
      handle_request-Replies device_id payload w parsed r _ f g refl

  handle_parsed-Replies :
      (device_id : ℤ) (payload : List ℕ) (w : W) (parsed : Option J)
      → broker.parse payload ≡ parsed
      → Replies device_id payload w (handle_parsed broker env device_id parsed w)
  handle_parsed-Replies device_id payload w none f =
      (_, refl, inl (error_reply-Complains (text "Invalid JSON."), refl))
  handle_parsed-Replies device_id payload w (some parsed) f =
      handle_validated-Replies device_id payload w parsed (broker.validate parsed) f refl

  module _ (topic_prefix : Option Text) where
    -- What a message to a device comes to: nothing when it is empty, and otherwise one reply, published on the
    -- response topic of that device.
    abbrev pub Answered : ℤ → List ℕ → Listener V W → Listener V W → Type 0
    Answered device_id payload s t =
        ((payload ≡ []) × (t.published ≡ s.published) × (t.events ≡ s.events) × (t.world ≡ s.world))
        ⊎ ((h : Handled V W) × (reply : Text) × (t.published
              ≡ s.published ++ (response_topic topic_prefix device_id, reply) ∷ [])
            × (t.events ≡ s.events ++ h.events)
            × (Complains reply h ⊎ Obeys device_id payload s.world reply h))

    published-Answered :
        (device_id : ℤ) (payload : List ℕ) (s : Listener V W) (h : Handled V W)
        → handle_message broker env device_id payload s.world ≡ h
        → Replies device_id payload s.world h
        → Answered device_id payload s (on_message broker env topic_prefix device_id payload s)
    unfolding on_message
    published-Answered device_id payload s h same (reply, replied, rest) =
        inr (h, reply, rw (same, replied) refl, rw (same, replied) refl, rest)

    on_message-Answered :
        (device_id : ℤ) (payload : List ℕ) (s : Listener V W)
        → Answered device_id payload s (on_message broker env topic_prefix device_id payload s)
    unfolding on_message handle_message
    on_message-Answered device_id [] s = inl (refl, refl, append-nil s.events, refl)
    on_message-Answered device_id (b ∷ payload) s =
        published-Answered device_id (b ∷ payload) s _ refl
          (handle_parsed-Replies device_id (b ∷ payload) s.world _ refl)

    -- A message on the command topic of a device is answered by at most one reply, on the response topic of that
    -- device, and by none only if it is empty. The reply either tells of an error, and then no change has been
    -- announced, or it is the value of the command that the message asks for, executed for that device.
    pub client_step-Answered :
        (device_id : ℤ) (payload : List ℕ) (s : Listener V W)
        → Answered device_id payload s (
            client_step broker env topic_prefix
              (message (command_topic topic_prefix device_id) payload)
              s)
    unfolding client_step
    client_step-Answered device_id payload s =
        rw (extract_device_id-command_topic topic_prefix device_id)
          (on_message-Answered device_id payload s)
