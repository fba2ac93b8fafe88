-- ===== src/PriorityQueue/Inv.antt =====
-- The invariant of the priority queue of m_priority_queues.c: the chains hold the nodes in use, each
-- in the chain of its priority, and the table holds their priorities.
use eclipse_code.Prelude.{
  ℕ, ◌+◌, ◌-◌, ◌%◌, ◌≤◌, ◌<◌, ◌≡◌, Bool, true, false, Option, some, none, List, update, u16_mod,
}
use eclipse_code.PriorityTable.Order.{IsTable, uses}
use eclipse_code.PriorityQueue.{PriorityListManager, PriorityListNodeSpace}
use eclipse_code.PriorityQueue.Nodes.{mem, distinct, Chain, busy_count}

-- What the queue stands for: which node a priority has, if it is in the queue, how many are,
-- and how many can be.
pub record Held : Type 0 where
  pub node_of : ℕ → Option ℕ
  pub count : ℕ
  pub size : ℕ

abbrev pub is_some : Option ℕ → Bool
is_some none = false
is_some (some a) = true

-- The nodes: `chains b` is the chain of the priorities with the remainder `b`.
pub record IsNodes (s : PriorityListNodeSpace) (held : Held) : Type 0 where
  pub sized : s.max_node_count ≡ held.size
  pub few : s.max_node_count < u16_mod
  pub counted : s.current_used_node_count ≡ busy_count s.max_node_count s.p_space
  pub count_held : s.current_used_node_count ≡ held.count
  pub chains : ℕ → List ℕ
  pub linked : (b : ℕ) → b < 10 → Chain s.p_space (s.p_list_head_nodes b) (chains b)
  pub apart : (b : ℕ) → b < 10 → distinct (chains b) ≡ true
  pub inside : (b a : ℕ) → b < 10 → mem a (chains b) ≡ true → a < s.max_node_count
  pub taken : (b a : ℕ) → b < 10 → mem a (chains b) ≡ true → (s.p_space a).is_free ≡ false
  pub sorted : (b a : ℕ) → b < 10 → mem a (chains b) ≡ true → (s.p_space a).priority % 10 ≡ b
  pub found :
      (b a : ℕ) → b < 10 → mem a (chains b) ≡ true → held.node_of ((s.p_space a).priority) ≡ some a
  pub kept : (p a : ℕ) → held.node_of p ≡ some a → mem a (chains (p % 10)) ≡ true
  pub own : (p a : ℕ) → held.node_of p ≡ some a → (s.p_space a).priority ≡ p
  pub numbered : (a : ℕ) → a < s.max_node_count → (s.p_space a).node_id_in_list_array ≡ a

-- The queue: its nodes, and a table of the same priorities.
pub record IsQueue (q : PriorityListManager) (held : Held) : Type 0 where
  pub ready : q.is_init ≡ true
  pub same_size : q.max_node_count ≡ q.node_space.max_node_count
  pub scope : q.max_priority_value < u16_mod
  pub nodes : IsNodes q.node_space held
  pub table : IsTable q.max_priority_value q.priority_table
  pub tabled :
      (p : ℕ)
      → p ≤ q.max_priority_value
      → uses q.is_high_priority_from_small q.max_priority_value p q.priority_table
        ≡ is_some (held.node_of p)
  pub in_scope : (p : ℕ) → q.max_priority_value < p → held.node_of p ≡ none

-- a priority leaves
abbrev pub drop : ℕ → Held → Held
drop p held = record held { node_of = update held.node_of p none; count = held.count - 1 }

-- A priority comes in with a node.
abbrev pub join : ℕ → ℕ → Held → Held
join p a held = record held { node_of = update held.node_of p (some a); count = held.count + 1 }
