-- ===== src/Split/Subtree.antt =====
-- daemon/src/split/system.rs, `subtree`: a process and everything below it. The map from a process to
-- its children is an association list.
pub mod Whole
use varmlen_client_linux.Base.{
  ℕ, zero, suc, Bool, true, false, not, ◌&&◌, ◌||◌, List, [], ◌∷◌, ◌++◌, Option, none, some, ◌==◌,
  ==_iff, if◌then◌else◌, any, length, ◌≡◌, ◌⊎◌, inl, inr, ◌+◌, ◌≤◌, ◌<◌, arith, refl, All,
  Bool-cases, sym,
}

abbrev pub Tree : Type 0
Tree = List (ℕ × List ℕ)

abbrev pub mem : ℕ → List ℕ → Bool
mem n xs = any (λ x. x == n) xs

unfoldable pub children : Tree → ℕ → List ℕ
children [] pid = []
children ((parent, below) ∷ tree) pid =
    let rest = children tree pid in if parent == pid then below else rest

-- The loop over the children of one process: what is found gets longer at its end, the stack at its top.
unfoldable pub push_children : List ℕ → List ℕ → List ℕ → List ℕ × List ℕ
push_children [] found queue = (found, queue)
push_children (child ∷ below) found queue =
    let seen = push_children below found queue in
    let fresh = push_children below (found ++ child ∷ []) (child ∷ queue) in
    if mem child found then seen else fresh

-- `none` when the fuel is used up.
unfoldable pub walk : ℕ → Tree → List ℕ → List ℕ → Option (List ℕ)
walk zero tree found queue = none
walk (suc fuel) tree found [] = some found
walk (suc fuel) tree found (pid ∷ queue) =
    let (found', queue') = push_children (children tree pid) found queue in
    walk fuel tree found' queue'

unfoldable pub everyone : Tree → List ℕ
everyone [] = []
everyone ((parent, below) ∷ tree) = below ++ everyone tree

-- The fuel is enough: each process goes onto the stack at most once for each time that it is a child.
unfoldable pub subtree : Tree → ℕ → Option (List ℕ)
unfolding walk everyone
subtree tree root = walk (2 + length (everyone tree)) tree (root ∷ []) (root ∷ [])

-- What is below a process.
pub data Below (tree : Tree) (root : ℕ) : ℕ → Type 0 where
  itself : Below tree root root
  child :
      {pid : ℕ} (c : ℕ) → Below tree root pid → mem c (children tree pid) ≡ true → Below tree root c

pub mem-append : (n : ℕ) (xs ys : List ℕ) → mem n (xs ++ ys) ≡ (mem n xs || mem n ys)
mem-append n [] ys = refl
mem-append n (x ∷ xs) ys = ground (arith, mem-append n xs ys)

pub unseen : List ℕ → List ℕ → ℕ
unseen [] found = 0
unseen (x ∷ xs) found = if mem x found then unseen xs found else suc (unseen xs found)

pub unseen-le : (xs found : List ℕ) (c : ℕ) → unseen xs (found ++ c ∷ []) ≤ unseen xs found
unfolding unseen
unseen-le [] found c = omega arith
unseen-le (x ∷ xs) found c = ground (arith, unseen-le xs found c, mem-append x found (c ∷ []))

pub unseen-lt :
    (xs found : List ℕ) (c : ℕ)
    → mem c xs ≡ true
    → mem c found ≡ false
    → suc (unseen xs (found ++ c ∷ [])) ≤ unseen xs found
unfolding unseen
unseen-lt [] found c h k = cc
unseen-lt (x ∷ xs) found c h k =
    ground (arith, unseen-lt xs found c, unseen-le xs found c, mem-append x found (c ∷ []))

pub unseen-length : (xs found : List ℕ) → unseen xs found ≤ length xs
unfolding unseen
unseen-length [] found = omega arith
unseen-length (x ∷ xs) found = ground (arith, unseen-length xs found)

pub mem-everyone :
    (tree : Tree) (pid c : ℕ) → mem c (children tree pid) ≡ true → mem c (everyone tree) ≡ true
unfolding children everyone
mem-everyone [] pid c h = cc
mem-everyone ((parent, below) ∷ tree) pid c h =
    ground (arith, mem-everyone tree pid c, mem-append c below (everyone tree))
