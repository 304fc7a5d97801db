-- ===== src/Split/Subtree/Whole.antt =====
-- daemon/src/split/system.rs: `subtree` ends, and finds exactly what is below the process.
use mathlib.Core.Path.{subst}
use varmlen_client_linux.Base.{
  sym, ℕ, zero, suc, true, List, [], ◌∷◌, ◌++◌, some, ◌==◌, ==_iff, length, ◌≡◌, ◌⊎◌, inl, inr, ◌+◌,
  ◌≤◌, ◌<◌, arith, refl, All, Bool-cases, ◌||◌,
}
use varmlen_client_linux.Split.Subtree.{
  Tree, mem, children, push_children, walk, everyone, subtree, Below, mem-append, unseen, unseen-lt,
  unseen-length, mem-everyone,
}

mem-last : (n c : ℕ) (found : List ℕ) → mem n (found ++ c ∷ []) ≡ (mem n found || c == n)
mem-last n c found = ground (arith, mem-append n found (c ∷ []))

-- What a loop over the children `cs` makes of what is found and of the stack.
record Pushes (cs found queue : List ℕ) (r : List ℕ × List ℕ) : Type 0 where
  grows : (n : ℕ) → mem n found ≡ true → mem n r.0 ≡ true
  stacks : (n : ℕ) → mem n queue ≡ true → mem n r.1 ≡ true
  covers : (n : ℕ) → mem n cs ≡ true → mem n r.0 ≡ true
  stacked : (n : ℕ) → mem n r.1 ≡ true → (mem n queue ≡ true) ⊎ (mem n r.0 ≡ true)
  adds :
      (n : ℕ) → mem n r.0 ≡ true → (mem n found ≡ true) ⊎ ((mem n r.1 ≡ true) × (mem n cs ≡ true))

pushes : (cs found queue : List ℕ) → Pushes cs found queue (push_children cs found queue)
unfolding push_children
pushes [] found queue = record {
  grows = λ n h. h;
  stacks = λ n h. h;
  covers = λ n h. cc;
  stacked = λ n h. inl h;
  adds = λ n h. inl h;
}
pushes (c ∷ cs) found queue = elim (Bool-cases (mem c found)) [
  | inl e ↦
      let p = pushes cs found queue in
      rw e (record {
        grows = p.grows;
        stacks = p.stacks;
        covers = λ n h. ground (arith, p.covers n, p.grows n, ==_iff c n);
        stacked = p.stacked;
        adds = λ n h. ground (arith, p.adds n h);
      })
  | inr e ↦
      let p = pushes cs (found ++ c ∷ []) (c ∷ queue) in
      rw e (record {
        grows = λ n h. ground (arith, p.grows n, mem-last n c found);
        stacks = λ n h. ground (arith, p.stacks n);
        covers = λ n h. ground (arith, p.covers n, p.grows n, mem-last n c found);
        stacked = λ n h. ground (arith, p.stacked n h, p.grows n, mem-last n c found);
        adds = λ n h. ground (arith, p.adds n h, mem-last n c found, p.stacks n);
      })
]

-- The measure of the walk does not grow.
measures :
    (all cs found queue : List ℕ)
    → ((n : ℕ) → mem n cs ≡ true → mem n all ≡ true)
    → let r = push_children cs found queue in
      length r.1 + unseen all r.0 ≤ length queue + unseen all found
unfolding push_children
measures all [] found queue sub = omega arith
measures all (c ∷ cs) found queue sub =
    let later : (n : ℕ) → mem n cs ≡ true → mem n all ≡ true = λ n h. sub n (ground (arith, h)) in
    let here : mem c all ≡ true = sub c (ground (arith, ==_iff c c)) in
    elim (Bool-cases (mem c found)) [
      | inl e ↦ rw e (measures all cs found queue later)
      | inr e ↦ rw e (
          omega (
            arith,
            measures all cs (found ++ c ∷ []) (c ∷ queue) later,
            unseen-lt all found c here e,
          ))
    ]

All-of : (P : ℕ → Type 0) (xs : List ℕ) → ((n : ℕ) → mem n xs ≡ true → P n) → All P xs
All-of P [] h = tt
All-of P (x ∷ xs) h =
    (h x (ground (arith, ==_iff x x)), All-of P xs (λ n k. h n (ground (arith, k))))

module _ (tree : Tree) (root : ℕ) where
  abbrev Closed : List ℕ → ℕ → Type 0
  Closed found p = (c : ℕ) → mem c (children tree p) ≡ true → mem c found ≡ true

  -- Between two rounds of the walk.
  record Walks (found queue : List ℕ) : Type 0 where
    rooted : mem root found ≡ true
    sound : (p : ℕ) → mem p found ≡ true → Below tree root p
    queued : (p : ℕ) → mem p queue ≡ true → mem p found ≡ true
    done : (p : ℕ) → mem p found ≡ true → (mem p queue ≡ true) ⊎ Closed found p

  abbrev pub IsWhole : List ℕ → Type 0
  IsWhole found =
      (mem root found ≡ true)
      × All (Below tree root) found
      × All (λ p. All (λ c. mem c found ≡ true) (children tree p)) found

  closed : (found : List ℕ) (p : ℕ) → (mem p [] ≡ true) ⊎ Closed found p → Closed found p
  closed found p (inl h) = cc
  closed found p (inr k) = k

  whole : (found : List ℕ) → Walks found [] → IsWhole found
  whole found w = (
    w.rooted,
    All-of (Below tree root) found w.sound,
    All-of (λ p. All (λ c. mem c found ≡ true) (children tree p)) found
        (λ p h. All-of (λ c. mem c found ≡ true) (children tree p) (closed found p (w.done p h))),
  )

  next_sound :
      (pid : ℕ) (found queue : List ℕ)
      → Walks found (pid ∷ queue)
      → (p : ℕ)
      → (mem p found ≡ true)
        ⊎ ((mem p (push_children (children tree pid) found queue).1 ≡ true)
            × (mem p (children tree pid) ≡ true))
      → Below tree root p
  next_sound pid found queue w p (inl h) = w.sound p h
  next_sound pid found queue w p (inr (h, k)) =
      Below.child p (w.sound pid (w.queued pid (ground (arith, ==_iff pid pid)))) k

  next_done :
      (pid : ℕ) (found queue : List ℕ)
      → Walks found (pid ∷ queue)
      → let r = push_children (children tree pid) found queue in
        (p : ℕ)
        → (mem p found ≡ true) ⊎ ((mem p r.1 ≡ true) × (mem p (children tree pid) ≡ true))
        → (mem p r.1 ≡ true) ⊎ Closed r.0 p
  next_done pid found queue w p (inr (h, k)) = inl h
  next_done pid found queue w p (inl h) =
      let p' = pushes (children tree pid) found queue in
      elim (w.done p h) [
        | inr k ↦ inr (λ c e. p'.grows c (k c e))
        | inl k ↦ elim (Bool-cases (pid == p)) [
          | inl e ↦ inr (λ c d.
              p'.covers c
                (subst (λ q. mem c (children tree q) ≡ true) (sym ((==_iff pid p).0 e)) d))
          | inr e ↦ inl (p'.stacks p (ground (arith, k, e)))
        ]
      ]

  next :
      (pid : ℕ) (found queue : List ℕ)
      → Walks found (pid ∷ queue)
      → let r = push_children (children tree pid) found queue in Walks r.0 r.1
  next pid found queue w =
      let p' = pushes (children tree pid) found queue in
      record {
        rooted = p'.grows root w.rooted;
        sound = λ p h. next_sound pid found queue w p (p'.adds p h);
        queued = λ p h. elim (p'.stacked p h) [
          | inl k ↦ p'.grows p (w.queued p (ground (arith, k)))
          | inr k ↦ k
        ];
        done = λ p h. next_done pid found queue w p (p'.adds p h);
      }

  walk_lem :
      (fuel : ℕ) (found queue : List ℕ)
      → length queue + unseen (everyone tree) found < fuel
      → Walks found queue
      → (result : List ℕ) × (walk fuel tree found queue ≡ some result) × IsWhole result
  unfolding walk
  walk_lem zero found queue h w = absurd (omega (arith, h))
  walk_lem (suc fuel) found [] h w = (found, refl, whole found w)
  walk_lem (suc fuel) found (pid ∷ queue) h w =
      let r = push_children (children tree pid) found queue in
      walk_lem fuel r.0 r.1
        (omega (
          arith,
          h,
          measures (everyone tree) (children tree pid) found queue (mem-everyone tree pid),
        ))
        (next pid found queue w)

  starts : Walks (root ∷ []) (root ∷ [])
  starts = record {
    rooted = ground (arith, ==_iff root root);
    sound = λ p h. subst (Below tree root) (ground (arith, h, ==_iff root p)) Below.itself;
    queued = λ p h. h;
    done = λ p h. inl h;
  }

  -- The walk always ends with a list, whatever the tree, also one with cycles. The list has the process
  -- itself, nothing that is not below it, and with each process all of its children.
  pub subtree_lem : (found : List ℕ) × (subtree tree root ≡ some found) × IsWhole found
  unfolding subtree
  subtree_lem =
      walk_lem (2 + length (everyone tree)) (root ∷ []) (root ∷ [])
        (omega (arith, unseen-length (everyone tree) (root ∷ []))) starts
