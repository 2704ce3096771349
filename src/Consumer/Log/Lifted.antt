-- ===== src/Consumer/Log/Lifted.antt =====
-- The rule for calls that work on one part of the state of consumer/log.py.
use kafka_order_event_platfo.Outcome.{Outcome, Exec, ok, raised}
use kafka_order_event_platfo.Metrics.LogAggregation.Buffer.{Buffer}
use kafka_order_event_platfo.Consumer.Offsets.Tracker.{Tracker}
use kafka_order_event_platfo.Consumer.Retry.Rule.{Post}
use kafka_order_event_platfo.Consumer.World.{World}
use kafka_order_event_platfo.Consumer.Log.State.{LogState, on_world, on_buffer, on_offsets}

-- A part is put back by `put`, whatever the call has returned or raised.
lift-Post {ℓ κ} :
    {S A : Type 0} (put : S → LogState) (Q : A → S → Type ℓ) (R : S → Type ℓ)
    (Q' : A → LogState → Type κ) (R' : LogState → Type κ) (r : Outcome A × S)
    → ((a : A) (t : S) → Q a t → Q' a (put t))
    → ((t : S) → R t → R' (put t))
    → Post Q R r
    → Post Q' R' (r.0, put r.1)
lift-Post put Q R Q' R' (ok a, t) f g h = f a t h
lift-Post put Q R Q' R' (raised e, t) f g h = g t h

module _ {ℓ κ} {A : Type 0} (s : LogState) (Q' : A → LogState → Type κ)
    (R' : LogState → Type κ) where
  pub on_world-Post :
      (call : Exec World A) (Q : A → World → Type ℓ) (R : World → Type ℓ)
      → ((a : A) (w : World) → Q a w → Q' a (record s { world = w }))
      → ((w : World) → R w → R' (record s { world = w }))
      → Post Q R (call s.world)
      → Post Q' R' (on_world call s)
  unfolding on_world
  on_world-Post call Q R = lift-Post (λ w. record s { world = w }) Q R Q' R' (call s.world)

  pub on_buffer-Post :
      (call : Exec Buffer A) (Q : A → Buffer → Type ℓ) (R : Buffer → Type ℓ)
      → ((a : A) (b : Buffer) → Q a b → Q' a (record s { buffer = b }))
      → ((b : Buffer) → R b → R' (record s { buffer = b }))
      → Post Q R (call s.buffer)
      → Post Q' R' (on_buffer call s)
  unfolding on_buffer
  on_buffer-Post call Q R = lift-Post (λ b. record s { buffer = b }) Q R Q' R' (call s.buffer)

  pub on_offsets-Post :
      (call : Exec Tracker A) (Q : A → Tracker → Type ℓ) (R : Tracker → Type ℓ)
      → ((a : A) (t : Tracker) → Q a t → Q' a (record s { offsets = t }))
      → ((t : Tracker) → R t → R' (record s { offsets = t }))
      → Post Q R (call s.offsets)
      → Post Q' R' (on_offsets call s)
  unfolding on_offsets
  on_offsets-Post call Q R = lift-Post (λ t. record s { offsets = t }) Q R Q' R' (call s.offsets)
