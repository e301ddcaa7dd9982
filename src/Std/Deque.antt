-- ===== src/Std/Deque.antt =====
-- `VecDeque`: a ring of `cap` slots. The items run from slot `head` on; those that pass the last
-- slot go on from slot 0. `front` and `back` are the two runs, which `as_slices` returns.
pub mod Laws
use navar.Base.{
  ℕ, zero, suc, ◌+◌, ◌-◌, ◌*◌, max, Bool, ◌&&◌, List, [], ◌∷◌, ◌++◌, Option, none, some, leb, ltb,
  ◌==◌, if◌then◌else◌, length, get_elem?, is_empty, foldl, ◌>>=◌,
}

pub record Deque {ℓ} (A : Type ℓ) : Type ℓ where
  pub cap : ℕ
  pub head : ℕ
  pub front : List A
  pub back : List A

module _ {ℓ} {A : Type ℓ} where
  unfoldable pub with_capacity : ℕ → Deque A
  with_capacity n = record { cap = n; head = 0; front = []; back = [] }

  abbrev pub contents : Deque A → List A
  contents d = d.front ++ d.back

  unfoldable pub len : Deque A → ℕ
  len d = length d.front + length d.back

  -- `d[i]`, which panics past the end.
  unfoldable pub get : Deque A → ℕ → Option A
  get d i =
      if ltb i (length d.front) then get_elem? d.front i else get_elem? d.back (i - length d.front)

  -- The slots after a growth to `n`: the shorter of the two runs is moved.
  grow : Deque A → ℕ → Deque A
  grow d n =
      if is_empty d.back
      then record d { cap = n }
      else if ltb (length d.back) (length d.front) && leb (length d.back) (n - d.cap)
      then record d { cap = n; front = d.front ++ d.back; back = [] }
      else record d { cap = n; head = n - length d.front }

  -- A write into the next free slot.
  write : Deque A → A → Deque A
  write d a =
      if is_empty d.back && ltb (d.head + length d.front) d.cap
      then record d { front = d.front ++ a ∷ [] }
      else record d { back = d.back ++ a ∷ [] }

  room_for_one : Deque A → Deque A
  unfolding grow len
  room_for_one d = if len d == d.cap then grow d (max (2 * d.cap) (max (d.cap + 1) 4)) else d

  room_for : ℕ → Deque A → Deque A
  unfolding grow len
  room_for n d = if ltb d.cap (len d + n) then grow d (max (2 * d.cap) (len d + n)) else d

  unfoldable pub push_back : Deque A → A → Deque A
  unfolding room_for_one write
  push_back d a = write (room_for_one d) a

  unfoldable pub extend : Deque A → List A → Deque A
  unfolding room_for write
  extend d xs = foldl write (room_for (length xs) d) xs

  next_slot : Deque A → ℕ
  next_slot d = if d.head + 1 == d.cap then 0 else d.head + 1

  pop_runs : Deque A → List A → List A → Option (A × Deque A)
  pop_runs d [] [] = none
  pop_runs d [] (b ∷ bs) = some (b, record d { head = next_slot d; front = bs; back = [] })
  pop_runs d (a ∷ []) bs = some (a, record d { head = next_slot d; front = bs; back = [] })
  pop_runs d (a ∷ a' ∷ rest) bs =
      some (a, record d { head = next_slot d; front = a' ∷ rest; back = bs })

  unfoldable pub pop_front : Deque A → Option (A × Deque A)
  unfolding pop_runs next_slot
  pop_front d = pop_runs d d.front d.back

  -- `for _ in 0..n { d.pop_front(); }`
  unfoldable pub pop_fronts : ℕ → Deque A → Deque A
  unfolding pop_front
  pop_fronts zero d = d
  pop_fronts (suc n) d = pop_fronts n (elim (pop_front d) [ none ↦ d | some (a, d') ↦ d' ])

  start_over : Bool → Deque A → Deque A
  start_over emptied d = if emptied then record d { head = 0 } else d

  -- `d.drain(0..n)`, which panics past the end, and starts an emptied ring at slot 0 again.
  unfoldable pub drain : ℕ → Deque A → Option (Deque A)
  unfolding pop_fronts len start_over
  drain n d =
      let rest = pop_fronts n d in
      if leb n (len d) then some (start_over (len rest == 0) rest) else none
