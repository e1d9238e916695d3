-- ===== src/Queue/Ring.antt =====
-- The pointers of a ring of nodes, in the order of the nodes.
use boke_os.Base.{ℕ, ◌≢◌, ◌≡◌, refl, sym, ap, arith, ◌==◌, update, List, [], ◌∷◌, ◌++◌, false, ◌∙◌}
use mathlib.Core.List.{append-nil}
use boke_os.Queue.{Node, erase}

-- The first address of the nodes, or else `z`; the last one, or else `p`.
abbrev pub head_addr : List Node → ℕ → ℕ
head_addr [] z = z
head_addr (n ∷ ns) z = n.addr

abbrev pub last_addr : ℕ → List Node → ℕ
last_addr p [] = p
last_addr p (n ∷ ns) = last_addr n.addr ns

module _ (f : ℕ → ℕ) where
  -- Each node's `next` is the node behind it, that of the last is `z`.
  abbrev pub Nexts : List Node → ℕ → Type 0
  Nexts [] z = Unit
  Nexts (n ∷ ns) z = (f n.addr ≡ head_addr ns z) × Nexts ns z

  -- Each node's `prev` is the node before it, that of the first is `p`.
  abbrev pub Prevs : ℕ → List Node → Type 0
  Prevs p [] = Unit
  Prevs p (n ∷ ns) = (f n.addr ≡ p) × Prevs n.addr ns

  abbrev pub Items : List Node → Type 0
  Items [] = Unit
  Items (n ∷ ns) = (f n.addr ≡ n.item) × Items ns

-- No node has the address `a`.
abbrev pub Apart : ℕ → List Node → Type 0
Apart a [] = Unit
Apart a (n ∷ ns) = (n.addr ≢ a) × Apart a ns

-- The addresses are different ones.
abbrev pub Distinct : List Node → Type 0
Distinct [] = Unit
Distinct (n ∷ ns) = Apart n.addr ns × Distinct ns

pub update-other : (f : ℕ → ℕ) (a v b : ℕ) → b ≢ a → update f a v b ≡ f b
update-other f a v b h = ground arith

pub update_self : (f : ℕ → ℕ) (a v : ℕ) → update f a v a ≡ v
update_self f a v = ground arith

pub Nexts-update :
    (f : ℕ → ℕ) (a v z : ℕ) (ns : List Node) → Apart a ns → Nexts f ns z → Nexts (update f a v) ns z
Nexts-update f a v z [] h x = tt
Nexts-update f a v z (n ∷ ns) h x =
    (update-other f a v n.addr h.0 ∙ x.0, Nexts-update f a v z ns h.1 x.1)

pub Prevs-update :
    (f : ℕ → ℕ) (a v p : ℕ) (ns : List Node) → Apart a ns → Prevs f p ns → Prevs (update f a v) p ns
Prevs-update f a v p [] h x = tt
Prevs-update f a v p (n ∷ ns) h x =
    (update-other f a v n.addr h.0 ∙ x.0, Prevs-update f a v n.addr ns h.1 x.1)

-- The last address is one of the nodes'.
pub last_addr-Apart :
    (a : ℕ) (n : Node) (ns : List Node) → Apart a (n ∷ ns) → last_addr n.addr ns ≢ a
last_addr-Apart a n [] h = h.0
last_addr-Apart a n (m ∷ ms) h = last_addr-Apart a m ms h.1

pub last_addr-snoc : (p : ℕ) (ns : List Node) (n : Node) → last_addr p (ns ++ n ∷ []) ≡ n.addr
last_addr-snoc p [] n = refl
last_addr-snoc p (m ∷ ms) n = last_addr-snoc m.addr ms n

head_addr-snoc :
    (ns : List Node) (n : Node) (z : ℕ) → head_addr (ns ++ n ∷ []) z ≡ head_addr ns n.addr
head_addr-snoc [] n z = refl
head_addr-snoc (m ∷ ms) n z = refl

-- The last node is sent elsewhere.
pub Nexts-redirect :
    (f : ℕ → ℕ) (z z' : ℕ) (n : Node) (ns : List Node)
    → Distinct (n ∷ ns)
    → Nexts f (n ∷ ns) z
    → Nexts (update f (last_addr n.addr ns) z') (n ∷ ns) z'
Nexts-redirect f z z' n [] d x = (update_self f n.addr z', tt)
Nexts-redirect f z z' n (m ∷ ms) d x = (
  update-other f _ z' n.addr (λ e. last_addr-Apart n.addr m ms d.0 (sym e)) ∙ x.0,
  Nexts-redirect f z z' m ms d.1 x.1,
)

-- The first node gets another one before it.
pub Prevs-redirect :
    (f : ℕ → ℕ) (p p' : ℕ) (n : Node) (ns : List Node)
    → Distinct (n ∷ ns)
    → Prevs f p (n ∷ ns)
    → Prevs (update f n.addr p') p' (n ∷ ns)
Prevs-redirect f p p' n ns d x =
    (update_self f n.addr p', Prevs-update f n.addr p' n.addr ns d.0 x.1)

pub Nexts-append :
    (f : ℕ → ℕ) (z : ℕ) (ns ms : List Node)
    → Nexts f ns (head_addr ms z)
    → Nexts f ms z
    → Nexts f (ns ++ ms) z
Nexts-append f z [] ms x y = y
Nexts-append f z (n ∷ []) ms x y = (x.0, y)
Nexts-append f z (n ∷ m ∷ ns) ms x y = (x.0, Nexts-append f z (m ∷ ns) ms x.1 y)

pub Nexts-split :
    (f : ℕ → ℕ) (z : ℕ) (ns ms : List Node)
    → Nexts f (ns ++ ms) z
    → Nexts f ns (head_addr ms z) × Nexts f ms z
Nexts-split f z [] ms x = (tt, x)
Nexts-split f z (n ∷ []) ms x = ((x.0, tt), x.1)
Nexts-split f z (n ∷ m ∷ ns) ms x = let (a, b) = Nexts-split f z (m ∷ ns) ms x.1 in ((x.0, a), b)

pub Prevs-append :
    (f : ℕ → ℕ) (p : ℕ) (ns ms : List Node)
    → Prevs f p ns
    → Prevs f (last_addr p ns) ms
    → Prevs f p (ns ++ ms)
Prevs-append f p [] ms x y = y
Prevs-append f p (n ∷ ns) ms x y = (x.0, Prevs-append f n.addr ns ms x.1 y)

pub Prevs-split :
    (f : ℕ → ℕ) (p : ℕ) (ns ms : List Node)
    → Prevs f p (ns ++ ms)
    → Prevs f p ns × Prevs f (last_addr p ns) ms
Prevs-split f p [] ms x = (tt, x)
Prevs-split f p (n ∷ ns) ms x = let (a, b) = Prevs-split f n.addr ns ms x.1 in ((x.0, a), b)

pub Items-append : (f : ℕ → ℕ) (ns ms : List Node) → Items f ns → Items f ms → Items f (ns ++ ms)
Items-append f [] ms x y = y
Items-append f (n ∷ ns) ms x y = (x.0, Items-append f ns ms x.1 y)

pub Items-split : (f : ℕ → ℕ) (ns ms : List Node) → Items f (ns ++ ms) → Items f ns × Items f ms
Items-split f [] ms x = (tt, x)
Items-split f (n ∷ ns) ms x = let (a, b) = Items-split f ns ms x.1 in ((x.0, a), b)

pub Apart-append : (a : ℕ) (ns ms : List Node) → Apart a ns → Apart a ms → Apart a (ns ++ ms)
Apart-append a [] ms x y = y
Apart-append a (n ∷ ns) ms x y = (x.0, Apart-append a ns ms x.1 y)

pub Apart-split : (a : ℕ) (ns ms : List Node) → Apart a (ns ++ ms) → Apart a ns × Apart a ms
Apart-split a [] ms x = (tt, x)
Apart-split a (n ∷ ns) ms x = let (b, c) = Apart-split a ns ms x.1 in ((x.0, b), c)

-- A node at the end whose address is new.
pub Distinct-snoc :
    (n : Node) (ns : List Node) → Distinct ns → Apart n.addr ns → Distinct (ns ++ n ∷ [])
Distinct-snoc n [] d a = (tt, tt)
Distinct-snoc n (m ∷ ms) d a =
    (Apart-append m.addr ms (n ∷ []) d.0 ((λ e. a.0 (sym e)), tt), Distinct-snoc n ms d.1 a.1)

-- Without the node in the middle, whose address no other has.
pub Distinct-remove :
    (xs : List Node) (n : Node) (ys : List Node)
    → Distinct (xs ++ n ∷ ys)
    → Distinct (xs ++ ys) × Apart n.addr xs × Apart n.addr ys
Distinct-remove [] n ys d = (d.1, tt, d.0)
Distinct-remove (x ∷ xs) n ys d =
    let (a, b, c) = Distinct-remove xs n ys d.1 in
    let (e, f) = Apart-split x.addr xs (n ∷ ys) d.0 in
    ((Apart-append x.addr xs ys e f.1, a), ((λ g. f.0 (sym g)), b), c)

pub erase-middle :
    (xs : List Node) (n : Node) (ys : List Node)
    → Apart n.addr xs
    → erase n.addr (xs ++ n ∷ ys) ≡ xs ++ ys
erase-middle [] n ys a = ground arith
erase-middle (x ∷ xs) n ys a =
    let other : (x.addr == n.addr) ≡ false = ground (arith, a.0) in
    rw other (ap (◌∷◌ x) (erase-middle xs n ys a.1))

Distinct-split : (ns ms : List Node) → Distinct (ns ++ ms) → Distinct ns × Distinct ms
Distinct-split [] ms d = (tt, d)
Distinct-split (n ∷ ns) ms d =
    let (a, b) = Distinct-split ns ms d.1 in (((Apart-split n.addr ns ms d.0).0, a), b)

Distinct-last :
    (n : Node) (ns ms : List Node) → Distinct (n ∷ ns ++ ms) → Apart (last_addr n.addr ns) ms
Distinct-last n [] ms d = d.0
Distinct-last n (m ∷ ns) ms d = Distinct-last m ns ms d.1

-- The first of the later nodes is none of the earlier ones.
Distinct-first :
    (ns : List Node) (m : Node) (ms : List Node) → Distinct (ns ++ m ∷ ms) → Apart m.addr ns
Distinct-first [] m ms d = tt
Distinct-first (n ∷ ns) m ms d =
    ((λ e. (Apart-split n.addr ns (m ∷ ms) d.0).1.0 (sym e)), Distinct-first ns m ms d.1)

last_addr-append :
    (p : ℕ) (ns ms : List Node) → last_addr p (ns ++ ms) ≡ last_addr (last_addr p ns) ms
last_addr-append p [] ms = refl
last_addr-append p (n ∷ ns) ms = last_addr-append n.addr ns ms

-- A node behind the first is taken out of the ring.
pub Nexts-remove :
    (f : ℕ → ℕ) (x : Node) (xs : List Node) (n : Node) (ys : List Node)
    → Distinct (x ∷ xs ++ ys)
    → Nexts f (x ∷ xs) n.addr
    → Nexts f ys x.addr
    → Nexts (update f (last_addr x.addr xs) (head_addr ys x.addr)) (x ∷ xs ++ ys) x.addr
Nexts-remove f x xs n ys d a b =
    Nexts-append _ x.addr (x ∷ xs) ys
      (Nexts-redirect f n.addr (head_addr ys x.addr) x xs (Distinct-split (x ∷ xs) ys d).0 a)
      (Nexts-update f _ _ x.addr ys (Distinct-last x xs ys d) b)

pub Prevs-remove :
    (f : ℕ → ℕ) (x : Node) (xs : List Node) (n : Node) (ys : List Node)
    → Distinct (x ∷ xs ++ ys)
    → Prevs f (last_addr x.addr (xs ++ n ∷ ys)) (x ∷ xs)
    → Prevs f n.addr ys
    → Prevs
        (update f (head_addr ys x.addr) (last_addr x.addr xs))
        (last_addr x.addr (xs ++ ys))
        (x ∷ xs ++ ys)
Prevs-remove f x xs n [] d a b =
    let whole : xs ++ [] ≡ xs = append-nil xs in
    rw whole (Prevs-redirect f _ (last_addr x.addr xs) x xs (Distinct-split (x ∷ xs) [] d).0 a)
Prevs-remove f x xs n (y ∷ ys) d a b =
    let same : last_addr x.addr (xs ++ n ∷ y ∷ ys) ≡ last_addr x.addr (xs ++ y ∷ ys) =
      last_addr-append x.addr xs (n ∷ y ∷ ys) ∙ sym (last_addr-append x.addr xs (y ∷ ys)) in
    Prevs-append _ _ (x ∷ xs) (y ∷ ys)
      (Prevs-update f y.addr _ _ (x ∷ xs) (Distinct-first (x ∷ xs) y ys d) (rw (sym same) a))
      (
        update_self f y.addr _,
        Prevs-update f y.addr _ y.addr ys (Distinct-split (x ∷ xs) (y ∷ ys) d).1.0 b.1,
      )
