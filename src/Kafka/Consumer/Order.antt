-- ===== src/Kafka/Consumer/Order.antt =====
-- The order of messages in a consumer of kafka/client.go, over any interleaving of its goroutines.
use mathlib.Core.List.{append_assoc, append-nil}
use go_infra.Prelude.{
  ℕ, ◌≤◌, true, false, Option, none, some, List, [], ◌∷◌, ◌++◌, ◌≡◌, refl, ◌∙◌, arith, length,
  length-append,
}
use go_infra.Kafka.Client.{Record}
use go_infra.Kafka.Consumer.{
  Pipeline, Step, cancels, closes, polls, buffers, hands_over, poller_returns, receives,
  worker_returns, worker_drained, begins, succeeds, fails, commits, commit_fails, Reach, start,
  later,
}

abbrev pub one : Option Record → List Record
one none = []
one (some m) = m ∷ []

-- The messages that were polled and not yet handled, in order.
abbrev pub pending : Pipeline → List Record
pending s = one s.working ++ (s.queue ++ one s.sending)

-- Nothing was dropped before the queue was closed; at most the message that was being sent then.
pub record Inv (capacity : ℕ) (s : Pipeline) : Type 0 where
  pub dropped : List Record
  pub in_order : s.polled ≡ s.handled ++ (pending s ++ dropped)
  pub dropped_late : s.queue_closed ≡ false → dropped ≡ []
  pub closed_empty : s.queue_closed ≡ true → s.sending ≡ none
  pub few : length s.queue ≤ capacity

ruleset appends = (append_assoc, append-nil)

-- A step that leaves the messages alone.
Inv-kept :
    {capacity : ℕ} {s t : Pipeline}
    → Inv capacity s
    → t.polled ≡ s.polled
    → t.handled ≡ s.handled
    → pending t ≡ pending s
    → t.queue_closed ≡ s.queue_closed
    → t.sending ≡ s.sending
    → t.queue ≡ s.queue
    → Inv capacity t
Inv-kept i p h w c o q = record {
  dropped = i.dropped;
  in_order = rw (p, h, w) i.in_order;
  dropped_late = λ x. i.dropped_late (rw⁻¹ c x);
  closed_empty = λ x. rw o (i.closed_empty (rw⁻¹ c x));
  few = rw q i.few;
}

Step-Inv : {capacity : ℕ} {s t : Pipeline} → Step capacity s t → Inv capacity s → Inv capacity t
Step-Inv {s} cancels i = Inv-kept i refl refl refl refl refl refl
Step-Inv {s} (closes c) i = Inv-kept i refl refl refl refl refl refl
Step-Inv {s} (polls m open_ idle) i = record {
  dropped = [];
  in_order = rw (i.in_order, idle, i.dropped_late open_) (simp appends refl);
  dropped_late = λ o. refl;
  closed_empty = λ c. cc;
  few = i.few;
}
Step-Inv {s} (buffers m e room) i = record {
  dropped = i.dropped;
  in_order = (rw e at i.in_order) ∙ simp appends refl;
  dropped_late = i.dropped_late;
  closed_empty = λ c. refl;
  few = ground (arith, length-append s.queue (m ∷ []));
}
Step-Inv {s} (hands_over m e q (w, f, d)) i = record {
  dropped = i.dropped;
  in_order = (rw (e, q, w) at i.in_order) ∙ rw q refl;
  dropped_late = i.dropped_late;
  closed_empty = λ c. refl;
  few = i.few;
}
Step-Inv {s} (poller_returns c) i = record {
  dropped = one s.sending ++ i.dropped;
  in_order = i.in_order ∙ simp appends refl;
  dropped_late = λ o. cc;
  closed_empty = λ c. refl;
  few = i.few;
}
Step-Inv {s} (receives m ms q (w, f, d)) i = record {
  dropped = i.dropped;
  in_order = rw (q, w) at i.in_order;
  dropped_late = i.dropped_late;
  closed_empty = i.closed_empty;
  few = ground (arith, i.few);
}
Step-Inv {s} (worker_returns w c) i = Inv-kept i refl refl refl refl refl refl
Step-Inv {s} (worker_drained w q c) i = Inv-kept i refl refl refl refl refl refl
Step-Inv {s} (begins m w r) i = Inv-kept i refl refl refl refl refl refl
Step-Inv {s} (commits m w c) i = Inv-kept i refl refl refl refl refl refl
Step-Inv {s} (commit_fails m w) i = Inv-kept i refl refl refl refl refl refl
Step-Inv {s} (succeeds m w r) i = record {
  dropped = i.dropped;
  in_order = (rw w at i.in_order) ∙ simp appends refl;
  dropped_late = i.dropped_late;
  closed_empty = i.closed_empty;
  few = i.few;
}
Step-Inv {s} (fails m w r) i = record {
  dropped = i.dropped;
  in_order = (rw w at i.in_order) ∙ simp appends refl;
  dropped_late = i.dropped_late;
  closed_empty = i.closed_empty;
  few = i.few;
}

pub Reach-Inv : {capacity : ℕ} {s : Pipeline} → Reach capacity s → Inv capacity s
Reach-Inv start = record {
  dropped = [];
  in_order = refl;
  dropped_late = λ o. refl;
  closed_empty = λ c. refl;
  few = omega arith;
}
Reach-Inv (later r st) = Step-Inv st (Reach-Inv r)

-- Over any interleaving the messages are handled in the order in which they were polled, none
-- twice and none skipped: what was polled is what was handled, then what waits, then what was
-- dropped. The queue stays within its capacity.
pub handled_in_order :
    {capacity : ℕ} {s : Pipeline}
    → Reach capacity s
    → ((dropped : List Record) × (s.polled ≡ s.handled ++ (pending s ++ dropped)))
      × (length s.queue ≤ capacity)
handled_in_order r = let i = Reach-Inv r in ((i.dropped, i.in_order), i.few)

-- Until the polling goroutine has returned, every message that was polled was handled or waits.
pub nothing_dropped :
    {capacity : ℕ} {s : Pipeline}
    → Reach capacity s
    → s.queue_closed ≡ false
    → s.polled ≡ s.handled ++ pending s
nothing_dropped {s} r open_ =
    let i = Reach-Inv r in i.in_order ∙ rw (i.dropped_late open_) (simp appends refl)
