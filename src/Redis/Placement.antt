-- ===== src/Redis/Placement.antt =====
-- src/redis/redis_manager.cpp: partitions and the table of current servers that fit each other.
use bcm_server.Base.{
  Bool-cases, List, Map, Str, [], ap, arith, false, inl, inr, insert, length, lookup, lookup-insert,
  none, or_else, refl, some, str_eq, str_eq_iff, str_less, subst, suc, sym, zero, ℕ, ◌%◌, ◌<◌, ◌∙◌,
  ◌∷◌, ◌≡◌, str_key, nat_key,
}
use bcm_server.Redis.Manager.{RedisDbManager, RedisServer}

-- Every partition has a current server, which is one of its servers.
abbrev pub Placed : RedisDbManager → Type 0
Placed m =
    (name : Str) (servers : List RedisServer)
    → lookup name m.partitions ≡ some servers
    → (c : ℕ) × (lookup name m.curr_partition_conn ≡ some c) × (c < length servers)

-- Every entry of a table of current servers is that of a partition, and one of its servers.
abbrev pub AllInside : Map Str (List RedisServer) → Map Str ℕ → Type 0
AllInside partitions [] = Unit
AllInside partitions ((name, c) ∷ rest) =
    ((servers : List RedisServer) × (lookup name partitions ≡ some servers) × (c < length servers))
    × AllInside partitions rest

abbrev pub Sound : RedisDbManager → Type 0
Sound m = Placed m × AllInside m.partitions m.curr_partition_conn

pub same_length : {xs ys : List RedisServer} → some xs ≡ some ys → length xs ≡ length ys
same_length e = ap (λ o. length (or_else o [])) e

pub absurd_some : {V : Type 0} {v : V} {A : Type 0} → some v ≡ none → A
absurd_some e = cc

pub str_eq_flip : (s t : Str) → str_eq s t ≡ false → str_eq t s ≡ false
str_eq_flip s t h = ground (arith, str_eq_iff s t, str_eq_iff t s)

pub insert-AllInside :
    (partitions : Map Str (List RedisServer)) (name : Str) (servers : List RedisServer) (c : ℕ)
    (conns : Map Str ℕ)
    → lookup name partitions ≡ some servers
    → c < length servers
    → AllInside partitions conns
    → AllInside partitions (insert name c conns)
unfolding insert
insert-AllInside partitions name servers c [] e below h = ((servers, e, below), tt)
insert-AllInside partitions name servers c ((i, x) ∷ rest) e below h =
    elim (Bool-cases (str_eq i name)) [
      | inl f ↦ rw (f, insert) ((servers, e, below), h.1)
      | inr f ↦ elim (Bool-cases (str_less name i)) [
        | inl g ↦ rw (f, g, insert) ((servers, e, below), (h.0, h.1))
        | inr g ↦
            rw (f, g, insert) (h.0, insert-AllInside partitions name servers c rest e below h.1)
      ]
    ]

-- A partition that no entry has may come or change.
pub grown-AllInside :
    (partitions : Map Str (List RedisServer)) (name : Str) (servers : List RedisServer)
    (conns : Map Str ℕ)
    → lookup name conns ≡ none
    → AllInside partitions conns
    → AllInside (insert name servers partitions) conns
unfolding lookup
grown-AllInside partitions name servers [] e h = tt
grown-AllInside partitions name servers ((i, x) ∷ rest) e h = elim (Bool-cases (str_eq i name)) [
  | inl f ↦ absurd_some (rw f at e)
  | inr f ↦ (
    (h.0.0, lookup-insert name i servers partitions ∙ rw (str_eq_flip i name f) h.0.1, h.0.2),
    grown-AllInside partitions name servers rest (rw f at e) h.1,
  )
]

pub move-Placed :
    (m : RedisDbManager) (name : Str) (servers : List RedisServer) (c : ℕ)
    → Placed m
    → lookup name m.partitions ≡ some servers
    → c < length servers
    → Placed (record m { curr_partition_conn = insert name c m.curr_partition_conn })
move-Placed m name servers c h e below other others f = elim (Bool-cases (str_eq name other)) [
  | inl g ↦ (
    c,
    rw (lookup-insert name other c m.curr_partition_conn) (rw g refl),
    subst (λ n. c < n)
        (same_length (sym e ∙ (ap (λ x. lookup x m.partitions) ((str_eq_iff name other).0 g) ∙ f)))
        below,
  )
  | inr g ↦
      let k = h other others f in
      (k.0, rw (lookup-insert name other c m.curr_partition_conn) (rw g k.1), k.2)
]

pub move-Sound :
    (m : RedisDbManager) (name : Str) (servers : List RedisServer) (c : ℕ)
    → Sound m
    → lookup name m.partitions ≡ some servers
    → c < length servers
    → Sound (record m { curr_partition_conn = insert name c m.curr_partition_conn })
move-Sound m name servers c h e below = (
  move-Placed m name servers c h.0 e below,
  insert-AllInside m.partitions name servers c m.curr_partition_conn e below h.1,
)

pub mod_below : (x n c : ℕ) → c < n → x % n < n
mod_below x zero c h = elim h [ ]
mod_below x (suc n) c h = omega arith
