-- ===== src/StampedCounter/Proxies.antt =====
-- stamped_counter.hpp: the proxies as references. The counters of a program stand in a store, and a
-- proxy knows which of them it refers to, so that several proxies can refer to one part of one.
use scalable_non_zero_indica.Base.{
  ℕ, ◌^◌, ◌<◌, ◌≡◌, refl, Bool, true, false, ◌==◌, ◌&&◌, if◌then◌else◌, Option, ap, ◌∙◌, inl, inr,
  Bool-cases, ==_iff, update,
}
use mathlib.Core.Option
use scalable_non_zero_indica.StampedCounter.{
  extract_stamp, extract_counter, pack, Compound, compute, stamp_assign, stamp_compound,
  counter_assign, counter_compound,
}
use scalable_non_zero_indica.StampedCounter.Parts.{stamp-lt, counter-lt, extract-pack}
use scalable_non_zero_indica.StampedCounter.Assign.{compute-lt, map_below, map-map}

pub data Part : Type 0 where
  stamp_part counter_part : Part

-- `stamp_reference` and `counter_reference`; a copy refers to the same counter.
pub record Proxy : Type 0 where
  pub part : Part
  pub at : ℕ

abbrev pub Store : Type 0
Store = ℕ → ℕ

-- The constructors of a stamped counter, at `at`
pub construct_parts : Store → ℕ → ℕ → ℕ → Store
construct_parts st at stamp counter = update st at (pack stamp counter)

pub construct_value : Store → ℕ → ℕ → Store
construct_value st at val = update st at val

-- `stamp()` and `counter()`
abbrev pub stamp_of : ℕ → Proxy
stamp_of at = record { part = stamp_part; at = at }

abbrev pub counter_of : ℕ → Proxy
counter_of at = record { part = counter_part; at = at }

abbrev pub extract : Part → ℕ → ℕ
extract stamp_part value = extract_stamp value
extract counter_part value = extract_counter value

abbrev pub replace : Part → ℕ → ℕ → ℕ
replace stamp_part value n = stamp_assign value n
replace counter_part value n = counter_assign value n

abbrev pub compound : Part → Compound → ℕ → ℕ → Option ℕ
compound stamp_part op value operand = stamp_compound op value operand
compound counter_part op value operand = counter_compound op value operand

-- The conversion of a proxy, and `get_stamp` and `get_counter`
pub proxy_read : Store → Proxy → ℕ
proxy_read st p = extract p.part (st p.at)

pub proxy_assign : Store → Proxy → ℕ → Store
proxy_assign st p n = update st p.at (replace p.part (st p.at) n)

pub proxy_assign_from : Store → Proxy → Proxy → Store
proxy_assign_from st p other = proxy_assign st p (proxy_read st other)

pub proxy_compound : Compound → Store → Proxy → ℕ → Option Store
proxy_compound op st p operand = Option.map (update st p.at) (compound p.part op (st p.at) operand)

abbrev pub same_part : Part → Part → Bool
same_part stamp_part stamp_part = true
same_part stamp_part counter_part = false
same_part counter_part stamp_part = false
same_part counter_part counter_part = true

-- Whether two proxies refer to the same part of the same counter
abbrev pub aliases : Proxy → Proxy → Bool
aliases p q = (p.at == q.at) && same_part p.part q.part

extract-replace :
    (part part' : Part) (v n : ℕ)
    → v < 2 ^ 64
    → n < 2 ^ 32
    → extract part' (replace part v n) ≡ (if same_part part part' then n else extract part' v)
unfolding stamp_assign counter_assign
extract-replace stamp_part stamp_part v n hv hn =
    (extract-pack n (extract_counter v) hn (counter-lt v hv)).0
extract-replace stamp_part counter_part v n hv hn =
    (extract-pack n (extract_counter v) hn (counter-lt v hv)).1
extract-replace counter_part stamp_part v n hv hn =
    (extract-pack (extract_stamp v) n (stamp-lt v hv) hn).0
extract-replace counter_part counter_part v n hv hn =
    (extract-pack (extract_stamp v) n (stamp-lt v hv) hn).1

compound_lem :
    (part : Part) (op : Compound) (v operand : ℕ)
    → compound part op v operand ≡ Option.map (replace part v) (compute op (extract part v) operand)
unfolding stamp_compound counter_compound
compound_lem stamp_part op v operand = refl
compound_lem counter_part op v operand = refl

-- Where all counters hold values of 64 bits, after the assignment of a number of 32 bits through
-- one proxy, another proxy reads that number if both refer to the same part of the same counter,
-- and what it read before if not.
pub read-assign :
    (st : Store) (p q : Proxy) (n : ℕ)
    → ((at : ℕ) → st at < 2 ^ 64)
    → n < 2 ^ 32
    → proxy_read (proxy_assign st p n) q ≡ (if aliases p q then n else proxy_read st q)
unfolding proxy_read proxy_assign
read-assign st p q n words hn = elim (Bool-cases (p.at == q.at)) [
  | inl here ↦
      let same : p.at ≡ q.at = (==_iff p.at q.at).0 here in
      rw here (
        extract-replace p.part q.part (st p.at) n (words p.at) hn
        ∙ ap (λ (a : ℕ). if same_part p.part q.part then n else extract q.part (st a)) same)
  | inr there ↦ rw there refl
]

-- Where all counters hold values of 64 bits, after a compound assignment through one proxy, which
-- is undefined only where the operator is, another proxy reads what the operator computes from the
-- old part if both refer to the same part of the same counter, and what it read before if not.
pub read-compound :
    (op : Compound) (st : Store) (p q : Proxy) (operand : ℕ)
    → ((at : ℕ) → st at < 2 ^ 64)
    → Option.map (λ st'. proxy_read st' q) (proxy_compound op st p operand)
      ≡ Option.map
          (λ n. if aliases p q then n else proxy_read st q)
          (compute op (proxy_read st p) operand)
unfolding proxy_compound proxy_read proxy_assign
read-compound op st p q operand words =
    let result = compute op (extract p.part (st p.at)) operand in
    map-map (compound p.part op (st p.at) operand) (update st p.at)
      (λ st'. extract q.part (st' q.at))
    ∙ ap (λ o. Option.map (λ (v : ℕ). extract q.part (update st p.at v q.at)) o)
        (compound_lem p.part op (st p.at) operand)
    ∙ map-map result (replace p.part (st p.at)) (λ v. extract q.part (update st p.at v q.at))
    ∙ map_below result _ _
        (λ n e. read-assign st p q n words (compute-lt op (extract p.part (st p.at)) operand n e))
