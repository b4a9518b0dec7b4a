-- ===== src/Hardware/Laws.antt =====
-- The cores of the inspector (web/src/components/HardwareInspector.tsx).
use ophanim.Base.{
  ℕ, zero, suc, ◌+◌, ◌<◌, ◌≤◌, ◌≡◌, refl, ◌∙◌, ap, Bool, true, false, ◌&&◌, some, List, arith, all,
  leb, ◌==◌, length, get_elem?,
}
use ophanim.Types.{Quantity, units, HostMetrics}
use ophanim.Hardware.{Core, core_count, core_usage, cores_from, cores, core_bar}

length-cores_from : (m : HostMetrics) (i n : ℕ) → length (cores_from m i n) ≡ n
unfolding cores_from
length-cores_from m i zero = refl
length-cores_from m i (suc n) = ap suc (length-cores_from m (i + 1) n)

abbrev core_at : HostMetrics → ℕ → Core
core_at m i = record { core = i; usage = core_usage m i }

get_elem?-cores_from :
    (m : HostMetrics) (i n k : ℕ)
    → k < n
    → get_elem? (cores_from m i n) k ≡ some (core_at m (i + k))
unfolding cores_from
get_elem?-cores_from m i zero k h = absurd (omega arith)
get_elem?-cores_from m i (suc n) zero h = ap (λ j. some (core_at m j)) (omega arith)
get_elem?-cores_from m i (suc n) (suc k) h =
    get_elem?-cores_from m (i + 1) n k (omega arith) ∙ ap (λ j. some (core_at m j)) (omega arith)

-- A core is bounded when its usage is at most a hundred per cent and its bar is as wide as it says.
abbrev pub is_bounded : Core → Bool
is_bounded c = leb c.usage (units 100) && (core_bar c == c.usage)

cores_from-is_bounded : (m : HostMetrics) (i n : ℕ) → all is_bounded (cores_from m i n) ≡ true
unfolding cores_from core_usage core_bar
cores_from-is_bounded m i zero = refl
cores_from-is_bounded m i (suc n) = ground (arith, cores_from-is_bounded m (i + 1) n)

core_usage-measured :
    (m : HostMetrics) (us : List Quantity) (k : ℕ) (u : Quantity)
    → m.cpu_cores_usage ≡ some us
    → get_elem? us k ≡ some u
    → u ≤ units 100
    → core_usage m k ≡ u
unfolding core_usage
core_usage-measured m us k u measured at small = rw (measured, at) (omega arith)

core_count-pos : (m : HostMetrics) → (core_count m == 0) ≡ false
unfolding core_count
core_count-pos m = ground arith

-- The inspector always shows cores: as many as the node reports, or four when it reports none, each
-- with at most a hundred per cent and a bar of that width. The core at a place shows the
-- measurement of that place, if there is one and it is at most a hundred per cent.
cores_lem :
    (m : HostMetrics) (us : List Quantity) (k : ℕ) (u : Quantity)
    → m.cpu_cores_usage ≡ some us
    → k < core_count m
    → get_elem? us k ≡ some u
    → u ≤ units 100
    → (length (cores m) ≡ core_count m)
      × ((length (cores m) == 0) ≡ false)
      × (all is_bounded (cores m) ≡ true)
      × (get_elem? (cores m) k ≡ some (record { core = k; usage = u }))
unfolding cores
cores_lem m us k u measured h at small = (
  length-cores_from m 0 (core_count m),
  rw (length-cores_from m 0 (core_count m)) (core_count-pos m),
  cores_from-is_bounded m 0 (core_count m),
  get_elem?-cores_from m 0 (core_count m) k h
      ∙ (ap (λ j. some (core_at m j)) (omega arith)
          ∙ ap (λ v. some (record { core = k; usage = v }))
              (core_usage-measured m us k u measured at small)),
)
