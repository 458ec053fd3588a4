-- ===== src/Event/Order.antt =====
-- The order of the listeners of an event.
use kalisko.Base.{
  ◌≡◌, ℕ, ◌+◌, ◌≤◌, ◌<◌, ◌==◌, true, false, List, [], ◌∷◌, ◌++◌, ◌⊎◌, inl, inr, ◌↔◌, arith, All,
  Bool-cases, ==_iff,
}
use kalisko.Event.{EventListenerEntry, comes_before, insert_sorted, enqueue, lowest, highest}

-- Each listener is called before those of a higher priority.
abbrev pub IsOrdered : List EventListenerEntry → Type 0
IsOrdered [] = Unit
IsOrdered (e ∷ es) = All (λ x. e.priority ≤ x.priority) es × IsOrdered es

abbrev pub InRange : EventListenerEntry → Type 0
InRange e = e.priority ≤ highest

-- The difference of the priorities fits 32 bits.
abbrev pub Near : EventListenerEntry → EventListenerEntry → Type 0
Near entry e =
    (e.priority < entry.priority + 2147483648) × (entry.priority ≤ e.priority + 2147483648)

comes_before_iff :
    (e entry : EventListenerEntry)
    → InRange e
    → InRange entry
    → Near entry e
    → (comes_before e entry ≡ true) ↔ (e.priority < entry.priority)
unfolding comes_before
comes_before_iff e entry a b n = ((λ h. ground arith), λ h. ground arith)

All-insert_sorted :
    (n : ℕ) (entry : EventListenerEntry) (es : List EventListenerEntry)
    → n ≤ entry.priority
    → All (λ x. n ≤ x.priority) es
    → All (λ x. n ≤ x.priority) (insert_sorted entry es)
unfolding insert_sorted
All-insert_sorted n entry [] h k = (h, tt)
All-insert_sorted n entry (e ∷ es) h k = ground (arith, All-insert_sorted n entry es h k.1)

All-weaken :
    (m n : ℕ) (es : List EventListenerEntry)
    → m ≤ n
    → All (λ x. n ≤ x.priority) es
    → All (λ x. m ≤ x.priority) es
All-weaken m n [] h k = tt
All-weaken m n (e ∷ es) h k = (omega (arith, k.0), All-weaken m n es h k.1)

insert_sorted-IsOrdered :
    (entry : EventListenerEntry) (es : List EventListenerEntry)
    → InRange entry
    → All InRange es
    → All (Near entry) es
    → IsOrdered es
    → IsOrdered (insert_sorted entry es)
unfolding insert_sorted
insert_sorted-IsOrdered entry [] r rs ns o = (tt, tt)
insert_sorted-IsOrdered entry (e ∷ es) r rs ns o =
    let i = comes_before_iff e entry rs.0 r ns.0 in
    elim (Bool-cases (comes_before e entry)) [
      | inl h ↦ rw h (
        All-insert_sorted e.priority entry es (omega (arith, i.0 h)) o.0,
        insert_sorted-IsOrdered entry es r rs.1 ns.1 o.1,
      )
      | inr h ↦
          let le : entry.priority ≤ e.priority = ground (arith, i.1) in
          rw h ((le, All-weaken entry.priority e.priority es le o.0), o)
    ]

All-lowest : (es : List EventListenerEntry) → All (λ x. lowest ≤ x.priority) es
All-lowest [] = tt
All-lowest (e ∷ es) = (omega arith, All-lowest es)

All-append :
    (n : ℕ) (es : List EventListenerEntry) (entry : EventListenerEntry)
    → n ≤ entry.priority
    → All (λ x. n ≤ x.priority) es
    → All (λ x. n ≤ x.priority) (es ++ entry ∷ [])
All-append n [] entry h k = (h, tt)
All-append n (e ∷ es) entry h k = (k.0, All-append n es entry h k.1)

append-IsOrdered :
    (es : List EventListenerEntry) (entry : EventListenerEntry)
    → entry.priority ≡ highest
    → All InRange es
    → IsOrdered es
    → IsOrdered (es ++ entry ∷ [])
append-IsOrdered [] entry h r o = (tt, tt)
append-IsOrdered (e ∷ es) entry h r o = (
  All-append e.priority es entry (omega (arith, r.0, h)) o.0,
  append-IsOrdered es entry h r.1 o.1,
)

differs : (a b : ℕ) → (a == b) ≡ false → ¬ (a ≡ b)
differs a b h = ground (arith, ==_iff a b)

-- Attaching a listener keeps the queue of an event in the order of the priorities, if these are
-- in the range of an int and the new one is the lowest or the highest, or differs from each in
-- the queue by no more than an int holds.
pub enqueue-IsOrdered :
    (entry : EventListenerEntry) (queue : List EventListenerEntry)
    → InRange entry
    → All InRange queue
    → (entry.priority ≡ lowest) ⊎ ((entry.priority ≡ highest) ⊎ All (Near entry) queue)
    → IsOrdered queue
    → IsOrdered (enqueue entry queue)
unfolding enqueue
enqueue-IsOrdered entry queue r rs c o = elim (Bool-cases (entry.priority == lowest)) [
  | inl a ↦
      let zero_priority = (==_iff entry.priority lowest).0 a in
      rw a (
        All-weaken entry.priority lowest queue (omega (arith, zero_priority)) (All-lowest queue),
        o,
      )
  | inr a ↦ elim (Bool-cases (entry.priority == highest)) [
    | inl b ↦ rw (a, b) (append-IsOrdered queue entry ((==_iff entry.priority highest).0 b) rs o)
    | inr b ↦
        rw (a, b)
          (insert_sorted-IsOrdered entry queue r rs
            (elim c [
              | inl e ↦ absurd (differs entry.priority lowest a e)
              | inr d ↦ elim d [
                | inl e ↦ absurd (differs entry.priority highest b e)
                | inr near ↦ near
              ]
            ])
            o)
  ]
]
