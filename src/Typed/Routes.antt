-- ===== src/Typed/Routes.antt =====
-- The store queues of the routes when they are stopped (products/common/rim_api.cpp) and after a
-- pass.
use Prim.Native.String.{String}
use text.Mathlib.Text.{◌==◌ as str_eq}
use printer_fw.Base.{List, [], ◌∷◌, All, Bool-cases, inl, inr}
use printer_fw.Queue.{shut}
use printer_fw.Value.{RimDataItem}
use printer_fw.Adapter.{RouteQueues}
use printer_fw.RouteExecutor.{RouteExecutor, stop_queues}
use printer_fw.Typed.Queued.{RouteHas}
use printer_fw.Api.Lifecycle.{stop_all_queues}
use printer_fw.Api.Workers.{replace_queues}

stop_queues-Has :
    (P : RimDataItem → Type 0) (e : RouteExecutor) (q : RouteQueues)
    → RouteHas P q
    → RouteHas P (stop_queues e q)
unfolding stop_queues shut
stop_queues-Has P e q h = elim (Bool-cases e.stopped) [
  | inl stopped ↦ rw stopped h
  | inr stopped ↦ elim (Bool-cases e.store_running) [
    | inl running ↦ rw (stopped, running) h
    | inr running ↦ rw (stopped, running) h
  ]
]

pub stop_all_queues-Has :
    (P : RimDataItem → Type 0) (es : List RouteExecutor) (qs : List RouteQueues)
    → All (RouteHas P) qs
    → All (RouteHas P) (stop_all_queues es qs)
unfolding stop_all_queues
stop_all_queues-Has P [] qs h = h
stop_all_queues-Has P (e ∷ es) [] h = tt
stop_all_queues-Has P (e ∷ es) (q ∷ qs) h =
    (stop_queues-Has P e q h.0, stop_all_queues-Has P es qs h.1)

pub replace_queues-Has :
    (P : RimDataItem → Type 0) (name : String) (q : RouteQueues) (qs : List RouteQueues)
    → RouteHas P q
    → All (RouteHas P) qs
    → All (RouteHas P) (replace_queues name q qs)
unfolding replace_queues
replace_queues-Has P name q [] hq h = tt
replace_queues-Has P name q (x ∷ xs) hq h = elim (Bool-cases (str_eq x.name name)) [
  | inl e ↦ rw e (hq, h.1)
  | inr e ↦ rw e (h.0, replace_queues-Has P name q xs hq h.1)
]
