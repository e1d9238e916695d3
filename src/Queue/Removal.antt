-- ===== src/Queue/Removal.antt =====
-- `remove_node` of circular_list.c on pointers against the removal from the list of nodes.
use boke_os.Base.{
  ℕ, ◌-◌, ◌≡◌, refl, ap, arith, ◌==◌, List, [], ◌∷◌, ◌++◌, length-append, true, false,
}
use boke_os.Kernel.{Allocator}
use boke_os.Queue.{Node, remove}
use boke_os.Queue.Pointers.{Heap, QueueCell, remove_node}
use boke_os.Queue.Refinement.{Represents}
use boke_os.Queue.Ring.{
  last_addr, Nexts-redirect, Prevs-redirect, Nexts-split, Prevs-split, Items-append, Items-split,
  Apart-append, Apart-split, Distinct-remove, erase-middle, Nexts-remove, Prevs-remove,
}

module _ (A : Allocator) (h : Heap A.Mem) (c : QueueCell) (n : Node) where
  -- The only node.
  remove_only :
      (qty : ℕ)
      → Represents h c (record { nodes = n ∷ []; qty = qty })
      → (remove_node A c n.addr h).0 ≡ n.item
        × Represents
            (remove_node A c n.addr h).2
            (remove_node A c n.addr h).1
            (record { nodes = []; qty = qty - 1 })
  unfolding remove_node
  remove_only qty r =
      let x : (n.addr == 0) ≡ false = ground (arith, r.no_null.0) in
      let y : (c.current_node == 0) ≡ false = ground (arith, r.current, r.no_null.0) in
      let one : (c.qty == 1) ≡ true = ground (arith, r.counted, r.number) in
      rw (x, y, one)
        (
          r.items.0,
          record {
            current = refl;
            counted = ap (λ m. m - 1) r.counted;
            number = omega (arith, r.number);
            nexts = tt;
            prevs = tt;
            items = tt;
            distinct = tt;
            no_null = tt;
          },
        )

  -- The current node, with others behind it.
  remove_current :
      (m : Node) (ms : List Node) (qty : ℕ)
      → Represents h c (record { nodes = n ∷ m ∷ ms; qty = qty })
      → (remove_node A c n.addr h).0 ≡ n.item
        × Represents
            (remove_node A c n.addr h).2
            (remove_node A c n.addr h).1
            (record { nodes = m ∷ ms; qty = qty - 1 })
  unfolding remove_node
  remove_current m ms qty r =
      let x : (n.addr == 0) ≡ false = ground (arith, r.no_null.0) in
      let y : (c.current_node == 0) ≡ false = ground (arith, r.current, r.no_null.0) in
      let z : (c.current_node == n.addr) ≡ true = ground (arith, r.current) in
      let more : (c.qty == 1) ≡ false = ground (arith, r.counted, r.number) in
      rw (x, y, z, more, r.nexts.0, r.prevs.0)
        (
          r.items.0,
          record {
            current = refl;
            counted = ap (λ m. m - 1) r.counted;
            number = omega (arith, r.number);
            nexts = Nexts-redirect h.next_of n.addr m.addr m ms r.distinct.1 r.nexts.1;
            prevs =
                Prevs-redirect h.prev_of n.addr (last_addr m.addr ms) m ms r.distinct.1 r.prevs.1;
            items = r.items.1;
            distinct = r.distinct.1;
            no_null = r.no_null.1;
          },
        )

  -- A node behind the current one.
  remove_later :
      (x : Node) (xs ys : List Node) (qty : ℕ)
      → Represents h c (record { nodes = x ∷ xs ++ n ∷ ys; qty = qty })
      → (remove_node A c n.addr h).0 ≡ n.item
        × Represents
            (remove_node A c n.addr h).2
            (remove_node A c n.addr h).1
            (record { nodes = x ∷ xs ++ ys; qty = qty - 1 })
  unfolding remove_node
  remove_later x xs ys qty r =
      let d = Distinct-remove (x ∷ xs) n ys r.distinct in
      let nulls = Apart-split 0 (x ∷ xs) (n ∷ ys) r.no_null in
      let its = Items-split h.data_of (x ∷ xs) (n ∷ ys) r.items in
      let nx = Nexts-split h.next_of x.addr (x ∷ xs) (n ∷ ys) r.nexts in
      let pv = Prevs-split h.prev_of (last_addr 0 (x ∷ xs ++ n ∷ ys)) (x ∷ xs) (n ∷ ys) r.prevs in
      let a : (n.addr == 0) ≡ false = ground (arith, nulls.1.0) in
      let b : (c.current_node == 0) ≡ false = ground (arith, r.current, nulls.0.0) in
      let e : (c.current_node == n.addr) ≡ false = ground (arith, r.current, d.1.0) in
      let more : (c.qty == 1) ≡ false =
        ground (arith, r.counted, r.number, length-append xs (n ∷ ys)) in
      rw (a, b, e, more, nx.1.0, pv.1.0)
        (
          its.1.0,
          record {
            current = r.current;
            counted = ap (λ m. m - 1) r.counted;
            number = omega (arith, r.number, length-append xs (n ∷ ys), length-append xs ys);
            nexts = Nexts-remove h.next_of x xs n ys d.0 nx.0 nx.1.1;
            prevs = Prevs-remove h.prev_of x xs n ys d.0 pv.0 pv.1.1;
            items = Items-append h.data_of (x ∷ xs) ys its.0 its.1.1;
            distinct = d.0;
            no_null = Apart-append 0 (x ∷ xs) ys nulls.0 nulls.1.1;
          },
        )

  remove_any :
      (xs ys : List Node) (qty : ℕ)
      → Represents h c (record { nodes = xs ++ n ∷ ys; qty = qty })
      → (remove_node A c n.addr h).0 ≡ n.item
        × Represents
            (remove_node A c n.addr h).2
            (remove_node A c n.addr h).1
            (record { nodes = xs ++ ys; qty = qty - 1 })
  remove_any [] [] qty r = remove_only qty r
  remove_any [] (m ∷ ms) qty r = remove_current m ms qty r
  remove_any (x ∷ xs) ys qty r = remove_later x xs ys qty r

-- `remove_node` of any node of the queue returns its item and does on the pointers what `remove`
-- does on the list: the others stay a ring in their order, from the same current node on, or from
-- the one behind the node if it was current.
pub remove_node-remove :
    (A : Allocator) (h : Heap A.Mem) (c : QueueCell) (n : Node) (xs ys : List Node) (qty : ℕ)
    → Represents h c (record { nodes = xs ++ n ∷ ys; qty = qty })
    → (remove_node A c n.addr h).0 ≡ n.item
      × Represents
          (remove_node A c n.addr h).2
          (remove_node A c n.addr h).1
          (remove (record { nodes = xs ++ n ∷ ys; qty = qty }) n.addr)
remove_node-remove A h c n xs ys qty r =
    rw (erase-middle xs n ys (Distinct-remove xs n ys r.distinct).1)
      (remove_any A h c n xs ys qty r)
