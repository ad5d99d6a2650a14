-- ===== src/ResourceQueue/Requests.antt =====
-- clientlib/resourcequeue.c: which requests `_resource_queue_cmd_append` takes.
use assimilation_official.Common.{
  ℕ, ◌≡◌, ◌↔◌, refl, true, false, Option, List, [], ◌∷◌, arith, All, ℤ, equalz, is_positive,
}
use assimilation_official.ResourceQueue.{
  ResourceCmd, RscQElem, ResourceQueue, compare_requestid, find_custom, qelem_new, queue_of,
  cmd_append,
}
use assimilation_official.ResourceQueue.Queues.{queue_of-ensure_queue}

pub equalz_iff : (a b : ℤ) → (equalz a b ≡ true) ↔ (a ≡ b)
equalz_iff (ℤ.pos m) (ℤ.pos n) = ground arith
equalz_iff (ℤ.negsuc m) (ℤ.negsuc n) = ground arith
equalz_iff (ℤ.pos m) (ℤ.negsuc n) = ground arith
equalz_iff (ℤ.negsuc m) (ℤ.pos n) = ground arith

-- `g_queue_find_custom` stops at an element that differs.
pub find_custom_iff :
    (qelem : RscQElem) (q : List RscQElem)
    → (find_custom q qelem ≡ false) ↔ All (λ e. e.requestid ≡ qelem.requestid) q
unfolding find_custom compare_requestid
find_custom_iff qelem [] = (λ h. tt, λ h. refl)
find_custom_iff qelem (e ∷ q) =
    ground (arith, equalz_iff e.requestid qelem.requestid, find_custom_iff qelem q)

-- A request is taken exactly when its id is positive and every request that waits for the same
-- resource has that very id.
pub cmd_append_iff :
    (now : ℕ) (self : ResourceQueue) (cmd : ResourceCmd) (cb : Option ℕ)
    → ((cmd_append now self cmd cb).1 ≡ true) ↔ (
        (is_positive cmd.request.reqid ≡ true)
        × All (λ e. e.requestid ≡ cmd.request.reqid) (queue_of cmd.resourcename self.resources))
unfolding cmd_append qelem_new
cmd_append_iff now self cmd cb = rw (queue_of-ensure_queue cmd.resourcename self.resources) (
    ground (
      arith,
      find_custom_iff (qelem_new now self.next_serial cmd cb)
          (queue_of cmd.resourcename self.resources),
    ))
