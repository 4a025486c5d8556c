-- ===== src/Tests/Full.antt =====
-- A contended direct arrival at `full_contention_handling_snzi`.
use scalable_non_zero_indica.Base.{
  ℕ, ◌≡◌, refl, Bool, true, false, ◌||◌, leb, add64, List, [], ◌∷◌, length,
}
use scalable_non_zero_indica.Backoff.{backoff, pause_loop}
use scalable_non_zero_indica.FullContention.{
  fresh_status, direct_exchange, note_failures, arrive_directly, direct_run,
}
use scalable_non_zero_indica.FullContention.Routes.{direct_return}

-- The accesses of a call that finds the counter changed five times after its first access
abbrev changing : List (Bool × ℕ)
changing = (false, 1) ∷ (false, 2) ∷ (false, 3) ∷ (false, 4) ∷ (true, 4) ∷ []

abbrev last_seen : ℕ
last_seen = 4

direct_return_example :
    let c = note_failures 5 fresh_status in
    (last_seen ≡ last_seen)
    × (add64 4 1 ≡ add64 4 1)
    × (c.use_snzi_in_arrive ≡ false)
    × (c.use_snzi_in_depart ≡ false)
    × (c.use_snzi_tree_flag ≡ (false || leb 5 (length changing)))
unfolding direct_run arrive_directly backoff pause_loop
direct_return_example =
    direct_return false false 0 0 4 4 (add64 4 1) changing fresh_status
      (note_failures 5 fresh_status) (direct_exchange 4 5 32) refl refl
