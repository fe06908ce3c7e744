-- ===== src/Rabbitmq/Consumer/Started.antt =====
-- A consumer of rabbitmq/client.go starts once.
use go_infra.Prelude.{ℕ, true, some, ◌≡◌, refl, arith, Bool-cases, inl, inr}
use go_infra.Rabbitmq.{Result, ok, err, Amqp}
use go_infra.Rabbitmq.Client
use go_infra.Rabbitmq.Client.{Client}
use go_infra.Rabbitmq.Consumer.{ConsumerRunner, start_on, start}

abbrev pub IsStarted : ConsumerRunner → Type 0
IsStarted r = r.started ≡ true

module _ {W : Type 0} (lib : Amqp W) where
  start_on-IsStarted :
      (r r' : ConsumerRunner) (c' : Client) (w' : W) (x : Client × W × Result ℕ)
      → IsStarted r
      → start_on lib r x ≡ some (c', r', w')
      → IsStarted r'
  unfolding start_on
  start_on-IsStarted r r' c' w' (c, w, err e) s h = cc
  start_on-IsStarted r r' c' w' (c, w, ok ch) s h = ground arith

  -- A runner that `Start` returned is started.
  pub start-IsStarted :
      (r r' : ConsumerRunner) (c c' : Client) (w w' : W)
      → start lib r c w ≡ some (c', r', w')
      → IsStarted r'
  unfolding start
  start-IsStarted r r' c c' w w' e = elim (Bool-cases r.started) [
    | inl y ↦ ground arith
    | inr y ↦
        start_on-IsStarted (record r { started = true }) r' c' w' (Client.channel lib c w) refl
          (rw y at e)
  ]

  -- A runner that is started is left alone.
  pub start_again :
      (r : ConsumerRunner) (c : Client) (w : W) → IsStarted r → start lib r c w ≡ some (c, r, w)
  unfolding start
  start_again r c w s = ground arith
