-- ===== src/Messageboard.antt =====
-- Headers/Client/Messageboard.hpp and Sources/Client/Messageboard.cpp: messages to all waiters that
-- are registered for a type. A waiter is its address, its messages are a queue, and `locks` says
-- whether a weak pointer to it can be locked, which the delivery of a message does not change.
pub mod Sends
use christians_steam_framewo.Base.{
  ℕ, zero, suc, ◌+◌, Bool, true, false, not, List, [], ◌∷◌, ◌++◌, Option, none, some, if◌then◌else◌,
  ◌==◌,
}
use christians_steam_framewo.Vector.{erase}

-- What a waiter of some address holds once it has received a message.
unfoldable pub received {ℓ} : {A : Type ℓ} → ℕ → A → (ℕ → List A) → ℕ → List A
received waiter message messages k = if waiter == k then messages k ++ message ∷ [] else messages k

-- The callback of `send` on a waiter: the messages, and the count of recipients.
unfoldable pub deliver {ℓ} : {A : Type ℓ} → (ℕ → Bool) → A → ℕ → (ℕ → List A) × ℕ → (ℕ → List A) × ℕ
unfolding received
deliver locks message waiter (messages, count) =
    if locks waiter then (received waiter message messages, count + 1) else (messages, count)

-- The map from types to waiters, where a type without waiters has no entry.
abbrev pub Waiters : Type 0
Waiters = List (ℕ × List ℕ)

-- `waiters.erase(iterator)` if no waiter is left.
unfoldable pub keep_entry : ℕ → List ℕ → Waiters → Waiters
keep_entry key [] rest = rest
keep_entry key (w ∷ ws) rest = (key, w ∷ ws) ∷ rest

-- `action` with the callback of `send`: the waiters, and the messages with the count.
unfoldable pub action {ℓ} :
    {A : Type ℓ} → (ℕ → Bool) → A → ℕ → Waiters → (ℕ → List A) × ℕ → Waiters × ((ℕ → List A) × ℕ)
unfolding deliver erase keep_entry
action locks message key [] s = ([], s)
action locks message key ((k, ws) ∷ rest) s =
    let ((ws', _), s') = erase (λ w s. (deliver locks message w s, not (locks w))) ws s in
    let (rest', s'') = action locks message key rest s in
    if k == key then (keep_entry k ws' rest, s') else ((k, ws) ∷ rest', s'')

unfoldable pub send {ℓ} :
    {A : Type ℓ} → (ℕ → Bool) → A → ℕ → Waiters → (ℕ → List A) → Waiters × ((ℕ → List A) × ℕ)
unfolding action
send locks message key waiters messages = action locks message key waiters (messages, 0)

-- Waiter::install
unfoldable pub install : ℕ → ℕ → Waiters → Waiters
install key waiter [] = (key, waiter ∷ []) ∷ []
install key waiter ((k, ws) ∷ rest) =
    let rest' = install key waiter rest in
    if k == key then (k, ws ++ waiter ∷ []) ∷ rest else (k, ws) ∷ rest'

-- Waiter::fetch, on the waiter's messages.
unfoldable pub fetch {ℓ} : {A : Type ℓ} → List A → Option A × List A
fetch [] = (none, [])
fetch (message ∷ messages) = (some message, messages)
