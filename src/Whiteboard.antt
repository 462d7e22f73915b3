-- ===== src/Whiteboard.antt =====
-- Headers/Client/Whiteboard.hpp and Sources/Client/Whiteboard.cpp: items that are stored by their
-- type, and waiters that are told of changes. A type is a number, a waiter is its address, and
-- `locks` says whether a weak pointer to it can be locked.
pub mod Notify
pub mod Fresh
use christians_steam_framewo.Base.{
  ℕ, zero, suc, ◌+◌, Bool, true, false, not, List, [], ◌∷◌, ◌++◌, Option, none, some, Outcome, ok,
  aborted, if◌then◌else◌, ◌==◌, Map, find_key, set_key, erase_key,
}
use christians_steam_framewo.Vector.{erase}

-- `hasChanged` of each waiter, and how often each has called `wakeup`.
pub record Flags : Type 0 where
  pub changed : ℕ → Bool
  pub wakeups : ℕ → ℕ

-- Whiteboard, with its waiters' flags.
pub record Whiteboard {ℓ} (A : Type ℓ) : Type ℓ where
  pub items : Map A
  pub waiters : Map (List ℕ)
  pub flags : Flags

-- setChanged
unfoldable pub set_changed : ℕ → Flags → Flags
set_changed waiter f =
    let woken : Flags = record {
      changed = λ w. if waiter == w then true else f.changed w;
      wakeups = λ w. if waiter == w then suc (f.wakeups w) else f.wakeups w;
    } in
    if f.changed waiter then f else woken

-- resetChanged
unfoldable pub reset_changed : ℕ → Flags → Flags
reset_changed waiter f = record f { changed = λ w. if waiter == w then false else f.changed w }

-- `waiters.erase(iterator)` if no waiter is left of the type.
unfoldable pub put_back : ℕ → List ℕ → Map (List ℕ) → Map (List ℕ)
put_back key [] waiters = erase_key key waiters
put_back key (w ∷ ws) waiters = set_key key (w ∷ ws) waiters

-- The lambda in `action`: its effect, and whether the waiter is to be erased.
unfoldable pub visit {ℓ} : {S : Type ℓ} → (ℕ → Bool) → (ℕ → S → S) → ℕ → S → S × Bool
visit locks callback waiter s = (if locks waiter then callback waiter s else s, not (locks waiter))

unfoldable pub action {ℓ} :
    {S : Type ℓ} → (ℕ → Bool) → (ℕ → S → S) → ℕ → Map (List ℕ) → S → Map (List ℕ) × S
unfolding visit erase put_back
action locks callback key waiters s = elim (find_key key waiters) [
  | none ↦ (waiters, s)
  | some ws ↦
      let ((ws', _), s') = erase (visit locks callback) ws s in (put_back key ws' waiters, s')
]

-- `waiters[key].emplace_back`
unfoldable pub add_waiter : ℕ → ℕ → Map (List ℕ) → Map (List ℕ)
add_waiter key waiter waiters = elim (find_key key waiters) [
  | none ↦ set_key key (waiter ∷ []) waiters
  | some ws ↦ set_key key (ws ++ waiter ∷ []) waiters
]

module _ {ℓ} {A : Type ℓ} (locks : ℕ → Bool) where
  unfoldable pub did_change : ℕ → Whiteboard A → Whiteboard A
  unfolding action set_changed
  did_change key b =
      let (waiters, flags) = action locks set_changed key b.waiters b.flags in
      record b { waiters = waiters; flags = flags }

  unfoldable pub set : ℕ → A → Whiteboard A → Whiteboard A
  unfolding did_change
  set key value b = did_change key (record b { items = set_key key value b.items })

  unfoldable pub clear : ℕ → Whiteboard A → Whiteboard A
  unfolding did_change
  clear key b = did_change key (record b { items = erase_key key b.items })

  -- ~Waiter: `action` without a callback.
  unfoldable pub clean_up : ℕ → Whiteboard A → Whiteboard A
  unfolding action
  clean_up key b = record b {
    waiters = (action locks (λ w (s : Unit {0}). s) key b.waiters (tt {0})).0;
  }

module _ {ℓ} {A : Type ℓ} where
  unfoldable pub has : ℕ → Whiteboard A → Option A
  has key b = find_key key b.items

  -- get, which asserts that the item exists
  unfoldable pub get : ℕ → Whiteboard A → Outcome A
  unfolding has
  get key b = elim (has key b) [ none ↦ aborted | some a ↦ ok a ]

  -- get, with a default
  unfoldable pub get_or : ℕ → A → Whiteboard A → A
  unfolding has
  get_or key default b = elim (has key b) [ none ↦ default | some a ↦ a ]

  -- Waiter::install
  unfoldable pub install : ℕ → ℕ → Whiteboard A → Whiteboard A
  unfolding has set_changed add_waiter
  install key waiter b =
      let added = record b { waiters = add_waiter key waiter b.waiters } in
      elim (has key b) [
        | none ↦ added
        | some a ↦ record added { flags = set_changed waiter b.flags }
      ]

  -- Waiter::has, and the ways to get the item from a waiter
  unfoldable pub waiter_has : ℕ → ℕ → Whiteboard A → Option A × Whiteboard A
  unfolding has reset_changed
  waiter_has key waiter b = (has key b, record b { flags = reset_changed waiter b.flags })

  unfoldable pub waiter_get : ℕ → ℕ → Whiteboard A → Outcome A × Whiteboard A
  unfolding get reset_changed
  waiter_get key waiter b = (get key b, record b { flags = reset_changed waiter b.flags })

  unfoldable pub waiter_get_or : ℕ → ℕ → A → Whiteboard A → A × Whiteboard A
  unfolding get_or reset_changed
  waiter_get_or key waiter default b =
      (get_or key default b, record b { flags = reset_changed waiter b.flags })

  -- isWoken
  unfoldable pub is_woken : ℕ → Whiteboard A → Bool
  is_woken waiter b = b.flags.changed waiter
