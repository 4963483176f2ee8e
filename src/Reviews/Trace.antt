-- ===== src/Reviews/Trace.antt =====
-- worker.py as a client of ingest.py and store.py: sequences of their transactions, by any process.
use doug.Prelude.{List, [], ◌∷◌}
use doug.Ingest.{Job}
use doug.Ingest.Op.{Op, apply}
use doug.Reviews.{Tables, Act, queue_act, review_act, Scored, save_review, act_on, perform}

-- The second tables come from the first by transactions, the worker's or others'.
pub data Traced : Tables → Tables → Type 0 where
  stay : {t : Tables} → Traced t t
  by_act : {t u : Tables} (a : Act) → Traced (act_on a t) u → Traced t u

pub Traced-trans : {t u v : Tables} → Traced t u → Traced u v → Traced t v
Traced-trans stay h = h
Traced-trans (by_act a g) h = by_act a (Traced-trans g h)

pub Traced-perform : (acts : List Act) (t : Tables) → Traced t (perform acts t)
unfolding perform
Traced-perform [] t = stay
Traced-perform (a ∷ acts) t = by_act a (Traced-perform acts (act_on a t))

pub Traced-op : (op : Op) (t : Tables) → Traced t (record t { queue = apply op t.queue })
unfolding act_on
Traced-op op t = by_act (queue_act op) stay

pub Traced-save : (job : Job) (tier : Scored) (t : Tables) → Traced t (save_review job tier t).1
unfolding act_on
Traced-save job tier t = by_act (review_act job tier) stay
