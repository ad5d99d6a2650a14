-- ===== src/ResourceQueue/Appending.antt =====
-- `_resource_queue_cmd_append` of clientlib/resourcequeue.c keeps the table of queues.
use assimilation_official.Common.{
  ℕ, ◌+◌, ◌≡◌, ◌≤◌, refl, inl, inr, true, false, Option, some, List, [], ◌∷◌, arith, All,
  Bool-cases, length-append, sym, ◌∙◌, ℤ, is_positive,
}
use mathlib.Core.Path.{subst}
use assimilation_official.ResourceQueue.{
  Name, ResourceCmd, RscQElem, RscQueue, ResourceQueue, queue_of, has_queue, on_queue, ensure_queue,
  find_custom, qelem_new, push_tail,
}
use assimilation_official.ResourceQueue.Queues.{
  total, total-on_queue, same_refl, queue_of_none, queue_of-ensure_queue, has_queue-ensure_queue,
  total-ensure_queue,
}
use assimilation_official.ResourceQueue.Elements.{
  sum, runs, any_serial, count, count_weight, runs_weight, sum-push_tail, All-push_tail,
}
use assimilation_official.ResourceQueue.Tables.{
  IsTable, IsQueue, IsElem, replace-IsTable, queue_of-IsQueue,
}
use assimilation_official.ResourceQueue.Requests.{find_custom_iff}

-- A command as the constructors make it.
pub record IsCmd (cmd : ResourceCmd) : Type 0 where
  pub idle : cmd.is_running ≡ false
  pub asked : cmd.request.resource ≡ some cmd.resourcename

with_id :
    (name : Name) (id other : ℤ) (q : List RscQElem)
    → All (IsElem name id) q
    → All (λ e. e.requestid ≡ other) q
    → All (IsElem name other) q
with_id name id other [] h k = tt
with_id name id other (e ∷ q) h k =
    (subst (λ i. IsElem name i e) (sym h.0.ident ∙ k.0) h.0, with_id name id other q h.1 k.1)

module _ (now : ℕ) (self : ResourceQueue) (cmd : ResourceCmd) (cb : Option ℕ) where
  abbrev pub appended : RscQElem
  appended = qelem_new now self.next_serial cmd cb

  abbrev pub waiting : List RscQElem
  waiting = queue_of cmd.resourcename self.resources

  appended-IsElem :
      IsCmd cmd
      → is_positive cmd.request.reqid ≡ true
      → IsElem cmd.resourcename cmd.request.reqid appended
  unfolding qelem_new
  appended-IsElem c p = record {
    named = refl;
    asked = c.asked;
    ident = refl;
    request = refl;
    positive = p;
  }

  idle : IsCmd cmd → runs_weight any_serial appended ≡ 0
  unfolding qelem_new
  idle c = rw c.idle refl

  pushed-IsQueue :
      IsCmd cmd
      → is_positive cmd.request.reqid ≡ true
      → IsTable self.resources
      → find_custom waiting appended ≡ false
      → IsQueue cmd.resourcename (push_tail appended waiting)
  unfolding qelem_new
  pushed-IsQueue c p t f =
      let q = queue_of-IsQueue cmd.resourcename self.resources t in
      record {
        id = cmd.request.reqid;
        elems =
            All-push_tail (IsElem cmd.resourcename cmd.request.reqid) appended waiting
              (with_id cmd.resourcename q.id cmd.request.reqid waiting q.elems
                ((find_custom_iff appended waiting).0 f))
              (appended-IsElem c p);
        single =
            omega
              (arith, q.single, sum-push_tail (runs_weight any_serial) appended waiting, idle c);
      }

  abbrev pub pushed : List RscQueue
  pushed =
      on_queue cmd.resourcename (push_tail appended) (ensure_queue cmd.resourcename self.resources)

  pub total-pushed :
      (w : RscQElem → ℕ) → total (sum w) pushed ≡ total (sum w) self.resources + w appended
  total-pushed w =
      let name : Name = cmd.resourcename in
      let made : List RscQueue = ensure_queue name self.resources in
      let l : queue_of name made ≡ waiting = queue_of-ensure_queue name self.resources in
      omega (
        arith,
        total-on_queue (sum w) name (push_tail appended) made
            (has_queue-ensure_queue name self.resources),
        total-ensure_queue (sum w) name self.resources refl,
        sum-push_tail w appended (queue_of name made),
      )

  once :
      IsTable self.resources
      → ((s : ℕ) → self.next_serial ≤ s → total (count s) self.resources ≡ 0)
      → (s : ℕ) → total (count s) pushed ≤ 1
  unfolding qelem_new
  once t fresh s = ground (arith, total-pushed (count_weight s), t.once s, fresh s)

  pub fresh-pushed :
      ((s : ℕ) → self.next_serial ≤ s → total (count s) self.resources ≡ 0)
      → (s : ℕ) → self.next_serial + 1 ≤ s
      → total (count s) pushed ≡ 0
  unfolding qelem_new
  fresh-pushed fresh s l = ground (arith, total-pushed (count_weight s), fresh s (omega arith))

  pub runs-pushed :
      IsCmd cmd → total (runs any_serial) pushed ≡ total (runs any_serial) self.resources
  runs-pushed c = omega (arith, total-pushed (runs_weight any_serial), idle c)

  pub pushed-IsTable :
      IsCmd cmd
      → is_positive cmd.request.reqid ≡ true
      → IsTable self.resources
      → ((s : ℕ) → self.next_serial ≤ s → total (count s) self.resources ≡ 0)
      → find_custom waiting appended ≡ false
      → IsTable pushed
  unfolding ensure_queue on_queue
  pushed-IsTable c p t fresh f =
      let name : Name = cmd.resourcename in
      let q = pushed-IsQueue c p t f in
      let o = once t fresh in
      elim (Bool-cases (has_queue name self.resources)) [
        | inl e ↦
            let made : ensure_queue name self.resources ≡ self.resources = rw e refl in
            subst (λ r. IsTable (on_queue name (push_tail appended) r)) (sym made)
              (replace-IsTable name (push_tail appended) self.resources t q
                (omega (arith, length-append waiting (appended ∷ [])))
                (λ s.
                  subst (λ r. total (count s) (on_queue name (push_tail appended) r) ≤ 1) made
                    (o s)))
        | inr e ↦
            let alone : RscQueue = record { name = name; elems = appended ∷ [] } in
            let made : pushed ≡ alone ∷ self.resources = rw (e, same_refl name) refl in
            subst IsTable (sym made) (record {
              queues = (
                subst (λ l. IsQueue name (push_tail appended l))
                    (queue_of_none name self.resources e) q,
                t.queues,
              );
              filled = (omega arith, t.filled);
              distinct = (e, t.distinct);
              once = λ s. subst (λ r. total (count s) r ≤ 1) made (o s);
            })
      ]

-- Where a request with another id waits already, the queue is there.
pub ensure_queue_found :
    (name : Name) (qelem : RscQElem) (resources : List RscQueue)
    → find_custom (queue_of name resources) qelem ≡ true
    → ensure_queue name resources ≡ resources
unfolding ensure_queue find_custom
ensure_queue_found name qelem resources f = elim (Bool-cases (has_queue name resources)) [
  | inl e ↦ rw e refl
  | inr e ↦
      absurd
        (ground (arith, subst (λ l. find_custom l qelem ≡ true) (queue_of_none name resources e) f))
]
