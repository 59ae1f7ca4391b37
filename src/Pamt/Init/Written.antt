-- ===== src/Pamt/Init/Written.antt =====
-- What the loops of the first contents leave: the entries of the given types, and zeroed nodes.
use tdx_module.Base.{
  ℕ, zero, suc, ◌+◌, ◌*◌, ◌/◌, ◌%◌, ◌≤◌, ◌<◌, ◌≡◌, ◌⊎◌, inl, inr, refl, ◌∙◌, arith, true, false,
  List, ◌==◌, if◌then◌else◌,
}
use tdx_module.Pamt.State.{PageType, pt_rsvd, pt_nda, RsvdArea, Mem}
use tdx_module.Pamt.Reserved.Ascending.{in_any, types_of}
use tdx_module.Pamt.Init
use tdx_module.Pamt.Init.{fresh}

-- The address is not among the `size` bytes from `base` on.
abbrev pub Beside : ℕ → ℕ → ℕ → Type 0
Beside base size q = (q < base) ⊎ (base + size ≤ q)

abbrev pub type_at : List RsvdArea → ℕ → PageType
type_at areas idx = if in_any areas (idx * 4096) then pt_rsvd else pt_nda

pub types-Beside :
    (areas : List RsvdArea) (p idx n : ℕ) (m : Mem) (q : ℕ)
    → Beside p (n * 16) q
    → Init.write_types p (types_of areas idx n) m q ≡ m q
unfolding Init.write_types
types-Beside areas p idx zero m q b = refl
types-Beside areas p idx (suc n) m q b =
    let other : (p == q) ≡ false = apart b in
    types-Beside areas (p + 16) (suc idx) n _ q (further b) ∙ rw other refl
  where
    apart : Beside p (suc n * 16) q → (p == q) ≡ false
    apart (inl h) = ground arith
    apart (inr h) = ground arith

    further : Beside p (suc n * 16) q → Beside (p + 16) (n * 16) q
    further (inl h) = inl (omega arith)
    further (inr h) = inr (omega arith)

pub types-at :
    (areas : List RsvdArea) (p idx n k : ℕ) (m : Mem)
    → k < n
    → Init.write_types p (types_of areas idx n) m (p + k * 16) ≡ fresh (type_at areas (idx + k))
unfolding Init.write_types
types-at areas p idx zero k m h = absurd (omega arith)
types-at areas p idx (suc n) zero m h =
    let here : (p == p + 0 * 16) ≡ true = ground arith in
    let same : idx ≡ idx + 0 = omega arith in
    types-Beside areas (p + 16) (suc idx) n _ (p + 0 * 16) (inl (omega arith))
    ∙ rw (here, ← same) refl
types-at areas p idx (suc n) (suc k) m h =
    let place : p + suc k * 16 ≡ p + 16 + k * 16 = omega arith in
    let index : idx + suc k ≡ suc idx + k = omega arith in
    rw (place, index) (types-at areas (p + 16) (suc idx) n k _ (omega arith))

-- The first `n` nodes are zeroed, and with them the rest of their last cache line.
abbrev pub up4 : ℕ → ℕ
up4 n = (n + 3) / 4 * 4

abbrev pub Zeroed : ℕ → ℕ → Mem → Type 0
Zeroed base n m = (k : ℕ) → k < up4 n → m (base + k * 16) ≡ fresh pt_nda

node-Beside : (p : ℕ) (m : Mem) (q : ℕ) → Beside p 64 q → Init.init_node p m q ≡ m q
unfolding Init.init_node
node-Beside p m q (inl h) = ground arith
node-Beside p m q (inr h) = ground arith

node-Zeroed :
    (base n : ℕ) (m : Mem)
    → base % 64 ≡ 0
    → Zeroed base n m
    → Zeroed base (suc n) (Init.init_node (base + n * 16) m)
unfolding Init.init_node
node-Zeroed base n m aligned h k lt = ground (arith, h k, h n)

node-Beside_line :
    (base n c : ℕ) (m : Mem) (q : ℕ)
    → base % 64 ≡ 0
    → Beside base (up4 (n + suc c) * 16) q
    → Init.init_node (base + n * 16) m q ≡ m q
unfolding Init.init_node
node-Beside_line base n c m q aligned (inl h) = ground arith
node-Beside_line base n c m q aligned (inr h) = ground arith

pub nodes-Zeroed :
    (base n c : ℕ) (m : Mem)
    → base % 64 ≡ 0
    → Zeroed base n m
    → Zeroed base (n + c) (Init.init_nodes (base + n * 16) c m)
unfolding Init.init_nodes
nodes-Zeroed base n zero m aligned h = λ k lt. h k (omega arith)
nodes-Zeroed base n (suc c) m aligned h =
    let next : base + n * 16 + 16 ≡ base + suc n * 16 = omega arith in
    let total : n + suc c ≡ suc n + c = omega arith in
    rw (next, total) (nodes-Zeroed base (suc n) c _ aligned (node-Zeroed base n m aligned h))

-- No address is touched but those of the nodes and of the cache line that the last one stands in.
pub nodes-Beside :
    (base n c : ℕ) (m : Mem) (q : ℕ)
    → base % 64 ≡ 0
    → Beside base (up4 (n + c) * 16) q
    → Init.init_nodes (base + n * 16) c m q ≡ m q
unfolding Init.init_nodes
nodes-Beside base n zero m q aligned b = refl
nodes-Beside base n (suc c) m q aligned b =
    let next : base + n * 16 + 16 ≡ base + suc n * 16 = omega arith in
    let total : n + suc c ≡ suc n + c = omega arith in
    rw next (nodes-Beside base (suc n) c _ q aligned (rw⁻¹ total b)) ∙ first b
  where
    first : Beside base (up4 (n + suc c) * 16) q → Init.init_node (base + n * 16) m q ≡ m q
    first = node-Beside_line base n c m q aligned
