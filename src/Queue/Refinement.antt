-- ===== src/Queue/Refinement.antt =====
-- The pointers of circular_list.c against the list of nodes that the rest of the kernel sees.
use boke_os.Base.{
  ℕ, ◌+◌, ◌≢◌, ◌≡◌, refl, sym, ap, arith, ◌==◌, update, List, [], ◌∷◌, ◌++◌, length, length-append,
  true, false, ◌∙◌, some,
}
use boke_os.Queue.{Node, Queue, insert}
use boke_os.Queue.Pointers.{Heap, QueueCell, insert_node}
use boke_os.Queue.Ring.{
  head_addr, last_addr, Nexts, Prevs, Items, Apart, Distinct, last_addr-snoc, update-other,
  Nexts-update, Prevs-update, update_self, Nexts-redirect, Prevs-redirect, Nexts-append,
  Prevs-append, Items-append, Apart-append, last_addr-Apart, Distinct-snoc,
}

-- The heap holds the queue's nodes as a ring through both pointers, in their order from
-- `current_node` on, with their items, and `qty` is their number.
pub record Represents {Mem : Type 0} (h : Heap Mem) (c : QueueCell) (q : Queue) : Type 0 where
  pub current : c.current_node ≡ head_addr q.nodes 0
  pub counted : c.qty ≡ q.qty
  pub number : q.qty ≡ length q.nodes
  pub nexts : Nexts h.next_of q.nodes (head_addr q.nodes 0)
  pub prevs : Prevs h.prev_of (last_addr 0 q.nodes) q.nodes
  pub items : Items h.data_of q.nodes
  pub distinct : Distinct q.nodes
  pub no_null : Apart 0 q.nodes

module _ {Mem : Type 0} (h : Heap Mem) (c : QueueCell) (n : Node) where
  insert_first :
      (qty : ℕ)
      → n.addr ≢ 0
      → h.data_of n.addr ≡ n.item
      → Represents h c (record { nodes = []; qty = qty })
      → (insert_node c n.addr h).0 ≡ some qty
        × Represents
            (insert_node c n.addr h).2
            (insert_node c n.addr h).1
            (record { nodes = n ∷ []; qty = qty + 1 })
  unfolding insert_node
  insert_first qty a d r =
      let x : (n.addr == 0) ≡ false = ground arith in
      let y : (c.current_node == 0) ≡ true = ground (arith, r.current) in
      rw (x, y)
        (
          ap some r.counted,
          record {
            current = refl;
            counted = ap (λ m. m + 1) r.counted;
            number = omega (arith, r.number);
            nexts = (update_self h.next_of n.addr n.addr, tt);
            prevs = (update_self h.prev_of n.addr n.addr, tt);
            items = (d, tt);
            distinct = (tt, tt);
            no_null = (a, tt);
          },
        )

  insert_next :
      (m : Node) (ms : List Node) (qty : ℕ)
      → n.addr ≢ 0
      → Apart n.addr (m ∷ ms)
      → h.data_of n.addr ≡ n.item
      → Represents h c (record { nodes = m ∷ ms; qty = qty })
      → (insert_node c n.addr h).0 ≡ some qty
        × Represents
            (insert_node c n.addr h).2
            (insert_node c n.addr h).1
            (record { nodes = m ∷ ms ++ n ∷ []; qty = qty + 1 })
  unfolding insert_node
  insert_next m ms qty a new d r =
      let x : (n.addr == 0) ≡ false = ground arith in
      let y : (c.current_node == 0) ≡ false = ground (arith, r.current, r.no_null.0) in
      let last : h.prev_of c.current_node ≡ last_addr m.addr ms = rw r.current r.prevs.0 in
      let g = update h.next_of n.addr m.addr in
      let g' = update h.prev_of n.addr (last_addr m.addr ms) in
      let behind : update g (last_addr m.addr ms) n.addr n.addr ≡ m.addr =
        update-other g _ n.addr n.addr (λ e. last_addr-Apart n.addr m ms new (sym e))
        ∙ update_self h.next_of n.addr m.addr in
      let before : update g' m.addr n.addr n.addr ≡ last_addr m.addr ms =
        update-other g' m.addr n.addr n.addr (λ e. new.0 (sym e))
        ∙ update_self h.prev_of n.addr _ in
      rw (x, y, last, r.current)
        (
          ap some r.counted,
          record {
            current = refl;
            counted = ap (λ k. k + 1) r.counted;
            number = omega (arith, r.number, length-append ms (n ∷ []));
            nexts =
                Nexts-append _ m.addr (m ∷ ms) (n ∷ [])
                  (Nexts-redirect g m.addr n.addr m ms r.distinct
                    (Nexts-update h.next_of n.addr m.addr m.addr (m ∷ ms) new r.nexts))
                  (behind, tt);
            prevs = rw (last_addr-snoc m.addr ms n) (
                Prevs-append _ n.addr (m ∷ ms) (n ∷ [])
                  (Prevs-redirect g' (last_addr m.addr ms) n.addr m ms r.distinct
                    (Prevs-update h.prev_of n.addr (last_addr m.addr ms) _ (m ∷ ms) new r.prevs))
                  (before, tt));
            items = Items-append h.data_of (m ∷ ms) (n ∷ []) r.items (d, tt);
            distinct = Distinct-snoc n (m ∷ ms) r.distinct new;
            no_null = Apart-append 0 (m ∷ ms) (n ∷ []) r.no_null (a, tt);
          },
        )

  insert_any :
      (ns : List Node) (qty : ℕ)
      → n.addr ≢ 0
      → Apart n.addr ns
      → h.data_of n.addr ≡ n.item
      → Represents h c (record { nodes = ns; qty = qty })
      → (insert_node c n.addr h).0 ≡ some qty
        × Represents
            (insert_node c n.addr h).2
            (insert_node c n.addr h).1
            (record { nodes = ns ++ n ∷ []; qty = qty + 1 })
  insert_any [] qty a new d r = insert_first qty a d r
  insert_any (m ∷ ms) qty a new d r = insert_next m ms qty a new d r

-- `insert_node` of a node that is not NULL, whose address no node of the queue has and whose `data`
-- is the item, does on the pointers what `insert` does on the list, and returns the old `qty`.
pub insert_node-insert :
    {Mem : Type 0} (h : Heap Mem) (c : QueueCell) (q : Queue) (n : Node)
    → n.addr ≢ 0
    → Apart n.addr q.nodes
    → h.data_of n.addr ≡ n.item
    → Represents h c q
    → (insert_node c n.addr h).0 ≡ some q.qty
      × Represents (insert_node c n.addr h).2 (insert_node c n.addr h).1 (insert q n)
insert_node-insert h c q n a new d r = insert_any h c n q.nodes q.qty a new d r
