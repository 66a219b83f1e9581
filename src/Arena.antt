-- ===== src/Arena.antt =====
-- src/arena.rs: a pool of order nodes with a free list, and the intrusive list of a price level.
-- The storage is a list of nodes. An index out of range panics, which is `none`. Counters wrap as
-- in a release build. The padding bytes of a node are left out.
pub mod Level
pub mod PushBack
pub mod Remove
pub mod PopFront
pub mod Pool
pub mod Quantity
pub mod Relink
pub mod Seg
use ferrox.Prelude.{
  value, ℕ, zero, suc, ◌+◌, ◌-◌, ◌^◌, ◌%◌, Bool, ltb, ◌==◌, not, if◌then◌else◌, Option, none, some,
  ◌>>=◌, List, [], ◌∷◌, get_elem?, set, ℤ, pos, Result, ok, err,
}
use ferrox.Order.{Side, bid, Order}

pub data ArenaError : Type 0 where
  full : ArenaError

-- `ARENA_NULL`, which is `u32::MAX`
abbrev pub arena_null : ℕ
arena_null = 4_294_967_295

-- `DEFAULT_CAPACITY`
abbrev pub default_capacity : ℕ
default_capacity = 1_048_576

-- `u32` and `u64` addition and subtraction
abbrev pub add_u32 : ℕ → ℕ → ℕ
add_u32 a b = (a + b) % 4_294_967_296

abbrev pub sub_u32 : ℕ → ℕ → ℕ
sub_u32 a b = (a + 4_294_967_296 - b) % 4_294_967_296

abbrev pub add_u64 : ℕ → ℕ → ℕ
add_u64 a b = (a + b) % 18_446_744_073_709_551_616

abbrev pub sub_u64 : ℕ → ℕ → ℕ
sub_u64 a b = (a + 18_446_744_073_709_551_616 - b) % 18_446_744_073_709_551_616

pub record OrderNode : Type 0 where
  pub id : ℕ
  pub trader_id : ℕ
  pub price : ℤ
  pub quantity : ℕ
  pub timestamp : ℕ
  pub prev : ℕ
  pub next : ℕ
  pub side : Side

abbrev pub zeroed : OrderNode
zeroed = record {
  id = 0;
  trader_id = 0;
  price = pos 0;
  quantity = 0;
  timestamp = 0;
  prev = arena_null;
  next = arena_null;
  side = bid;
}

abbrev pub from_order : Order → OrderNode
from_order order = record {
  id = order.id;
  trader_id = order.trader_id;
  price = order.price;
  quantity = order.quantity;
  timestamp = order.timestamp;
  prev = arena_null;
  next = arena_null;
  side = order.side;
}

abbrev pub to_order : OrderNode → Order
to_order node = record {
  id = node.id;
  trader_id = node.trader_id;
  side = node.side;
  price = node.price;
  quantity = node.quantity;
  timestamp = node.timestamp;
}

pub record PriceLevel : Type 0 where
  pub head : ℕ
  pub tail : ℕ
  pub count : ℕ
  pub qty : ℕ

-- `PriceLevel::new`
abbrev pub new_level : PriceLevel
new_level = record { head = arena_null; tail = arena_null; count = 0; qty = 0 }

abbrev pub Storage : Type 0
Storage = List OrderNode

pub record Arena : Type 0 where
  pub storage : Storage
  pub free_head : ℕ
  pub count : ℕ
  pub capacity : ℕ

-- The nodes that the loop of `Arena::new` pushes for `i..i + rounds`.
unfoldable pub new_nodes : (rounds i capacity : ℕ) → Storage
new_nodes zero i capacity = []
new_nodes (suc rounds) i capacity =
    record zeroed { next = if ltb (add_u32 i 1) capacity then add_u32 i 1 else arena_null }
    ∷ new_nodes rounds (i + 1) capacity

-- `Arena::new`
unfoldable pub new : ℕ → Arena
unfolding new_nodes
new capacity = record {
  storage = new_nodes capacity 0 capacity;
  free_head = if ltb 0 capacity then 0 else arena_null;
  count = 0;
  capacity = capacity;
}

-- `self.storage[index as usize].next = value`, and the same of `prev`
unfoldable pub set_next : ℕ → ℕ → Storage → Option Storage
set_next index value storage = do
  node ← get_elem? storage index
  some (set storage index (record node { next = value }))

unfoldable pub set_prev : ℕ → ℕ → Storage → Option Storage
set_prev index value storage = do
  node ← get_elem? storage index
  some (set storage index (record node { prev = value }))

unfoldable pub alloc : Arena → Order → Option (Result ArenaError ℕ × Arena)
alloc arena order = if arena.free_head == arena_null then some (err full, arena) else do
  node ← get_elem? arena.storage arena.free_head
  some (
    ok arena.free_head,
    record arena {
      storage = set arena.storage arena.free_head (from_order order);
      free_head = node.next;
      count = add_u32 arena.count 1;
    },
  )

unfoldable pub dealloc : Arena → ℕ → Option Arena
dealloc arena index = do
  storage ← set_next index arena.free_head arena.storage
  some (record arena { storage = storage; free_head = index; count = sub_u32 arena.count 1 })

-- `get` and `get_mut`; a write through `get_mut` is `set_quantity` below
abbrev pub get : Arena → ℕ → Option OrderNode
get arena index = get_elem? arena.storage index

-- `arena.get_mut(index).quantity = quantity`
unfoldable pub set_quantity : Arena → ℕ → ℕ → Option Arena
set_quantity arena index quantity = do
  node ← get arena index
  some (record arena { storage = set arena.storage index (record node { quantity = quantity }) })

-- The `if` of `push_back`: the new node is linked behind the tail, or becomes the head.
unfoldable pub link_back : Storage → PriceLevel → ℕ → Option (Storage × PriceLevel)
link_back storage level index =
    if not (level.tail == arena_null)
    then (do
      storage ← set_next level.tail index storage
      storage ← set_prev index level.tail storage
      some (storage, level))
    else (do
      storage ← set_prev index arena_null storage
      some (storage, record level { head = index }))

unfoldable pub push_back : Arena → PriceLevel → ℕ → Option (Arena × PriceLevel)
push_back arena level index = do
  node ← get_elem? arena.storage index
  (storage, level) ← link_back arena.storage level index
  storage ← set_next index arena_null storage
  some (
    record arena { storage = storage },
    record level {
      tail = index;
      count = add_u32 level.count 1;
      qty = add_u64 level.qty node.quantity;
    },
  )

-- The `if` of `pop_front`.
unfoldable pub unlink_front : Storage → PriceLevel → ℕ → Option (Storage × PriceLevel)
unlink_front storage level next =
    if not (next == arena_null)
    then (do
      storage ← set_prev next arena_null storage
      some (storage, record level { head = next }))
    else some (storage, record level { head = arena_null; tail = arena_null })

unfoldable pub pop_front : Arena → PriceLevel → Option (Option ℕ × Arena × PriceLevel)
pop_front arena level = if level.head == arena_null then some (none, arena, level) else do
  node ← get_elem? arena.storage level.head
  (storage, level') ← unlink_front arena.storage level node.next
  some (
    some level.head,
    record arena { storage = storage },
    record level' { count = sub_u32 level.count 1; qty = sub_u64 level.qty node.quantity },
  )

-- The two `if`s of `remove`.
unfoldable pub unlink_prev : Storage → PriceLevel → (prev next : ℕ) → Option (Storage × PriceLevel)
unlink_prev storage level prev next =
    if not (prev == arena_null)
    then (do storage ← set_next prev next storage; some (storage, level))
    else some (storage, record level { head = next })

unfoldable pub unlink_next : Storage → PriceLevel → (prev next : ℕ) → Option (Storage × PriceLevel)
unlink_next storage level prev next =
    if not (next == arena_null)
    then (do storage ← set_prev next prev storage; some (storage, level))
    else some (storage, record level { tail = prev })

unfoldable pub remove : Arena → PriceLevel → ℕ → Option (Arena × PriceLevel)
remove arena level index = do
  node ← get_elem? arena.storage index
  (storage, level) ← unlink_prev arena.storage level node.prev node.next
  (storage, level) ← unlink_next storage level node.prev node.next
  some (
    record arena { storage = storage },
    record level { count = sub_u32 level.count 1; qty = sub_u64 level.qty node.quantity },
  )
