-- ===== src/Queue/Freeing.antt =====
-- `free_queue` and the creating calls of circular_list.c on pointers.
use boke_os.Base.{
  ℕ, suc, zero, ◌<◌, ◌≢◌, ◌≡◌, refl, arith, ◌==◌, List, [], ◌∷◌, length, true, false, some,
}
use boke_os.Base.Run.{ok}
use boke_os.Kernel.{Allocator}
use boke_os.Queue.{Node, empty}
use boke_os.Queue.Pointers.{Heap, QueueCell, create_queue, free_nodes, free_queue}
use boke_os.Queue.Refinement.{Represents}
use boke_os.Queue.Ring.{head_addr, Nexts, Apart}

-- `free` of the nodes, one after the other.
unfoldable pub free_all : (A : Allocator) → List Node → A.Mem → A.Mem
free_all A [] m = m
free_all A (n ∷ ns) m = free_all A ns (A.free n.addr m)

free_nodes-all :
    (A : Allocator) (rounds : ℕ) (c : ℕ) (ns : List Node) (h : Heap A.Mem)
    → length ns < rounds
    → Nexts h.next_of ns c
    → Apart c ns
    → free_nodes A rounds c (head_addr ns c) h ≡ ok (record h { mem = free_all A ns h.mem })
unfolding free_nodes free_all
free_nodes-all A zero c ns h l x a = absurd (omega arith)
free_nodes-all A (suc rounds) c [] h l x a = let met : (c == c) ≡ true = ground arith in rw met refl
free_nodes-all A (suc rounds) c (n ∷ ns) h l x a =
    let apart : (c == n.addr) ≡ false = ground (arith, a.0) in
    let rest =
      free_nodes-all A rounds c ns (record h { mem = A.free n.addr h.mem }) (omega arith) x.1 a.1 in
    rw (apart, x.0) rest

-- `free_queue` of a queue with nodes ends within as many rounds as there are nodes, and gives back
-- every node exactly once, the current one last, and then the queue.
free_queue-all :
    (A : Allocator) (rounds queue_at : ℕ) (h : Heap A.Mem) (c : QueueCell) (n : Node)
    (ns : List Node) (qty : ℕ)
    → Represents h c (record { nodes = n ∷ ns; qty = qty })
    → length ns < rounds
    → free_queue A rounds queue_at c h
      ≡ ok (record h { mem = A.free queue_at (A.free n.addr (free_all A ns h.mem)) })
unfolding free_queue
free_queue-all A rounds queue_at h c n ns qty r l =
    let some_node : (n.addr == 0) ≡ false = ground (arith, r.no_null.0) in
    let loop = free_nodes-all A rounds n.addr ns h l r.nexts.1 r.distinct.0 in
    rw (r.current, some_node, r.nexts.0, loop) refl

-- `free_queue` of a queue without nodes gives nothing back, not even the queue.
free_queue-nothing :
    (A : Allocator) (rounds queue_at : ℕ) (h : Heap A.Mem) (c : QueueCell) (qty : ℕ)
    → Represents h c (record { nodes = []; qty = qty })
    → free_queue A rounds queue_at c h ≡ ok h
unfolding free_queue
free_queue-nothing A rounds queue_at h c qty r =
    let none_left : (c.current_node == 0) ≡ true = ground (arith, r.current) in rw none_left refl

-- `create_queue` gives, unless `malloc` fails, a queue without nodes.
create_queue-empty :
    (A : Allocator) (h : Heap A.Mem)
    → (A.malloc 16 h.mem).0 ≢ 0
    → (c : QueueCell) × ((create_queue A h).0 ≡ some ((A.malloc 16 h.mem).0, c))
      × Represents (create_queue A h).1 c empty
unfolding create_queue
create_queue-empty A h e =
    let given : ((A.malloc 16 h.mem).0 == 0) ≡ false = ground (arith, e) in
    (
      record { current_node = 0; qty = 0 },
      rw given refl,
      rw given (record {
        current = refl;
        counted = refl;
        number = refl;
        nexts = tt;
        prevs = tt;
        items = tt;
        distinct = tt;
        no_null = tt;
      }),
    )
