-- ===== src/Messageboard/Sends.antt =====
-- Who receives a message that is sent.
use mathlib.Core.List.{Perm, Permᴰ}
use mathlib.Core.Logic.{∥∥₁_elim}
use native.Mathlib.Nat.{ℕ_set}
use christians_steam_framewo.Base.{
  ℕ, zero, suc, ◌+◌, Bool, true, false, not, List, [], ◌∷◌, ◌++◌, append_assoc, append-nil,
  if◌then◌else◌, ◌==◌, ==_iff, ◌≡◌, refl, sym, ap, subst, ◌∙◌, Bool-cases, inl, inr, arith,
}
use christians_steam_framewo.Vector.{erase, erase_from}
use christians_steam_framewo.Vector.Erase.{reject, run, erase-Erases}
use christians_steam_framewo.Messageboard.{received, deliver, Waiters, keep_entry, action, send}

-- How often an address is among others, and how many of them can be locked.
unfoldable pub copies : ℕ → List ℕ → ℕ
copies k [] = 0
copies k (w ∷ ws) = let n = copies k ws in if w == k then suc n else n

unfoldable pub live : (ℕ → Bool) → List ℕ → ℕ
live locks [] = 0
live locks (w ∷ ws) = let n = live locks ws in if locks w then suc n else n

unfoldable pub repeated {ℓ} : {A : Type ℓ} → ℕ → A → List A
repeated zero x = []
repeated (suc n) x = x ∷ repeated n x

-- The waiters that are registered for a type.
unfoldable pub registered : ℕ → Waiters → List ℕ
registered key [] = []
registered key ((k, ws) ∷ rest) = let other = registered key rest in if k == key then ws else other

swap_if :
    (p q : Bool) (n : ℕ)
    → (if p then suc (if q then suc n else n) else (if q then suc n else n))
      ≡ (if q then suc (if p then suc n else n) else (if p then suc n else n))
swap_if true true n = refl
swap_if true false n = refl
swap_if false true n = refl
swap_if false false n = refl

copies-Permᴰ : (k : ℕ) {xs ys : List ℕ} → Permᴰ xs ys → copies k xs ≡ copies k ys
unfolding copies
copies-Permᴰ k Permᴰ.nil = refl
copies-Permᴰ k (Permᴰ.cons {a} {b} {l₁} {l₂} e d) =
    subst (λ c. copies k (a ∷ l₁) ≡ copies k (c ∷ l₂)) e
      (ap (λ n. if a == k then suc n else n) (copies-Permᴰ k d))
copies-Permᴰ k (Permᴰ.swap {a} {b} {a' = c} {b' = d} {l} e e') =
    subst (λ d. copies k (a ∷ b ∷ l) ≡ copies k (c ∷ d ∷ l)) e
      (subst (λ c. copies k (a ∷ b ∷ l) ≡ copies k (c ∷ a ∷ l)) e'
        (swap_if (a == k) (b == k) (copies k l)))
copies-Permᴰ k (Permᴰ.trans d d') = copies-Permᴰ k d ∙ copies-Permᴰ k d'

live-Permᴰ : (locks : ℕ → Bool) {xs ys : List ℕ} → Permᴰ xs ys → live locks xs ≡ live locks ys
unfolding live
live-Permᴰ locks Permᴰ.nil = refl
live-Permᴰ locks (Permᴰ.cons {a} {b} {l₁} {l₂} e d) =
    subst (λ c. live locks (a ∷ l₁) ≡ live locks (c ∷ l₂)) e
      (ap (λ n. if locks a then suc n else n) (live-Permᴰ locks d))
live-Permᴰ locks (Permᴰ.swap {a} {b} {a' = c} {b' = d} {l} e e') =
    subst (λ d. live locks (a ∷ b ∷ l) ≡ live locks (c ∷ d ∷ l)) e
      (subst (λ c. live locks (a ∷ b ∷ l) ≡ live locks (c ∷ a ∷ l)) e'
        (swap_if (locks a) (locks b) (live locks l)))
live-Permᴰ locks (Permᴰ.trans d d') = live-Permᴰ locks d ∙ live-Permᴰ locks d'

-- Each type has one entry at most.
unfoldable pub Keyed : Waiters → Type 0
unfolding registered
Keyed [] = Unit
Keyed ((k, ws) ∷ rest) = (registered k rest ≡ []) × Keyed rest

registered-keep_entry :
    (key : ℕ) (ws : List ℕ) (rest : Waiters)
    → registered key rest ≡ []
    → registered key (keep_entry key ws rest) ≡ ws
unfolding registered keep_entry
registered-keep_entry key [] rest h = h
registered-keep_entry key (w ∷ ws) rest h =
    let e : (key == key) ≡ true = (==_iff key key).1 refl in rw e refl

module _ {ℓ} {A : Type ℓ} (locks : ℕ → Bool) (message : A) where
  -- What an address receives when the message is delivered to others in order.
  share : List ℕ → ℕ → List A
  share order k = repeated (if locks k then copies k order else 0) message

  share_miss : (w : ℕ) (ws : List ℕ) (k : ℕ) → (w == k) ≡ false → share (w ∷ ws) k ≡ share ws k
  unfolding share copies
  share_miss w ws k e = rw e refl

  share_hit :
      (w : ℕ) (ws : List ℕ) (k : ℕ)
      → (w == k) ≡ true
      → locks k ≡ true
      → share (w ∷ ws) k ≡ message ∷ share ws k
  unfolding share copies repeated
  share_hit w ws k e l = rw (e, l) refl

  share_dead : (ws : List ℕ) (k : ℕ) → locks k ≡ false → share ws k ≡ []
  unfolding share repeated
  share_dead ws k l = rw l refl

  share_nil : (k : ℕ) → share [] k ≡ []
  unfolding share copies repeated
  share_nil k = elim (Bool-cases (locks k)) [ inl l ↦ rw l refl | inr l ↦ rw l refl ]

  deliver_live :
      (w : ℕ) (messages : ℕ → List A) (n : ℕ)
      → locks w ≡ true
      → deliver locks message w (messages, n) ≡ (received w message messages, n + 1)
  unfolding deliver
  deliver_live w messages n l = rw l refl

  deliver_dead :
      (w : ℕ) (messages : ℕ → List A) (n : ℕ)
      → locks w ≡ false
      → deliver locks message w (messages, n) ≡ (messages, n)
  unfolding deliver
  deliver_dead w messages n l = rw l refl

  received_hit :
      (w : ℕ) (messages : ℕ → List A) (k : ℕ)
      → (w == k) ≡ true
      → received w message messages k ≡ messages k ++ message ∷ []
  unfolding received
  received_hit w messages k e = rw e refl

  received_miss :
      (w : ℕ) (messages : ℕ → List A) (k : ℕ)
      → (w == k) ≡ false
      → received w message messages k ≡ messages k
  unfolding received
  received_miss w messages k e = rw e refl

  run-deliver :
      (order : List ℕ) (s : (ℕ → List A) × ℕ) (k : ℕ)
      → (run (deliver locks message) order s).0 k ≡ s.0 k ++ share order k
  unfolding run
  run-deliver [] s k = sym (ap (λ l. s.0 k ++ l) (share_nil k) ∙ append-nil (s.0 k))
  run-deliver (w ∷ ws) (messages, n) k = elim (Bool-cases (locks w)) [
    | inl l ↦
        ap (λ t. (run (deliver locks message) ws t).0 k) (deliver_live w messages n l)
        ∙ run-deliver ws (received w message messages, n + 1) k
        ∙ elim (Bool-cases (w == k)) [
          | inl e ↦
              let l' : locks k ≡ true = ap locks (sym ((==_iff w k).0 e)) ∙ l in
              ap (λ x. x ++ share ws k) (received_hit w messages k e)
              ∙ append_assoc (messages k) (message ∷ []) (share ws k)
              ∙ ap (λ x. messages k ++ x) (sym (share_hit w ws k e l'))
          | inr e ↦
              ap (λ x. x ++ share ws k) (received_miss w messages k e)
              ∙ ap (λ x. messages k ++ x) (sym (share_miss w ws k e))
        ]
    | inr l ↦
        ap (λ t. (run (deliver locks message) ws t).0 k) (deliver_dead w messages n l)
        ∙ run-deliver ws (messages, n) k
        ∙ elim (Bool-cases (w == k)) [
          | inl e ↦
              let l' : locks k ≡ false = ap locks (sym ((==_iff w k).0 e)) ∙ l in
              ap (λ x. messages k ++ x) (share_dead ws k l' ∙ sym (share_dead (w ∷ ws) k l'))
          | inr e ↦ ap (λ x. messages k ++ x) (sym (share_miss w ws k e))
        ]
  ]

  run-deliver-count :
      (order : List ℕ) (s : (ℕ → List A) × ℕ)
      → (run (deliver locks message) order s).1 ≡ s.1 + live locks order
  unfolding run live
  run-deliver-count [] s = omega arith
  run-deliver-count (w ∷ ws) (messages, n) = elim (Bool-cases (locks w)) [
    | inl l ↦
        ap (λ t. (run (deliver locks message) ws t).1) (deliver_live w messages n l)
        ∙ run-deliver-count ws (received w message messages, n + 1)
        ∙ rw l (omega arith)
    | inr l ↦
        ap (λ t. (run (deliver locks message) ws t).1) (deliver_dead w messages n l)
        ∙ run-deliver-count ws (messages, n)
        ∙ rw l refl
  ]

  share-Perm : {xs ys : List ℕ} (k : ℕ) → Perm xs ys → share xs k ≡ share ys k
  unfolding share
  share-Perm {xs} {ys} k p =
      ap (λ n. repeated (if locks k then n else 0) message)
        (∥∥₁_elim p (ℕ_set (copies k xs) (copies k ys)) (copies-Permᴰ k))

  -- What `send` is to do for a type's waiters: each of them receives the message as often as it is
  -- registered, those that cannot be locked are dropped, and the others are counted.
  pub record Delivers (ws : List ℕ) (messages : ℕ → List A) (left : List ℕ)
      (after : (ℕ → List A) × ℕ) : Type ℓ where
    pub kept : Perm left (reject (λ w. not (locks w)) ws)
    pub receives :
        (k : ℕ) → after.0 k ≡ messages k ++ repeated (if locks k then copies k ws else 0) message
    pub recipients : after.1 ≡ live locks ws

  erase-Delivers :
      (ws : List ℕ) (messages : ℕ → List A)
      → Delivers ws messages
          (erase (λ w s. (deliver locks message w s, not (locks w))) ws (messages, 0)).0.0
          (erase (λ w s. (deliver locks message w s, not (locks w))) ws (messages, 0)).1
  unfolding share
  erase-Delivers ws messages =
      let h = erase-Erases (λ w. not (locks w)) (deliver locks message) ws (messages, 0) in
      record {
        kept = h.left;
        receives = λ k.
            ap (λ t. t.0 k) h.effects
            ∙ run-deliver h.order (messages, 0) k
            ∙ ap (λ x. messages k ++ x) (share-Perm k h.tested);
        recipients = omega (
          arith,
          ap (λ t. t.1) h.effects,
          run-deliver-count h.order (messages, 0),
          ∥∥₁_elim h.tested (ℕ_set (live locks h.order) (live locks ws)) (live-Permᴰ locks),
        );
      }

  -- If each type has one entry at most, sending a message gives it to each waiter of its type that
  -- can be locked, as often as it is registered and behind what it holds, gives other addresses
  -- nothing, counts the recipients, and drops from the type's waiters those that cannot be locked.
  pub send-Delivers :
      (key : ℕ) (waiters : Waiters) (messages : ℕ → List A)
      → Keyed waiters
      → Delivers
          (registered key waiters)
          messages
          (registered key (send locks message key waiters messages).0)
          (send locks message key waiters messages).1
  unfolding send action registered Keyed erase erase_from
  send-Delivers key [] messages h = erase-Delivers [] messages
  send-Delivers key ((k, ws) ∷ rest) messages (none_left, h) = elim (Bool-cases (k == key)) [
    | inl e ↦
        let same : k ≡ key = (==_iff k key).0 e in
        let erased = erase (λ w s. (deliver locks message w s, not (locks w))) ws (messages, 0) in
        let left : registered key (keep_entry k erased.0.0 rest) ≡ erased.0.0 =
          ap (λ c. registered key (keep_entry c erased.0.0 rest)) same
          ∙ registered-keep_entry key erased.0.0 rest
              (subst (λ c. registered c rest ≡ []) same none_left) in
        rw e (subst (λ l. Delivers ws messages l erased.1) (sym left) (erase-Delivers ws messages))
    | inr e ↦ rw e (rw e (send-Delivers key rest messages h))
  ]
