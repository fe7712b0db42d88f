-- ===== src/Mining/Expiry.antt =====
-- What a round of `expirationLoop` (eth/pbft-core.go) leaves.
use pbft_block.Common.{
  ℕ, ◌-◌, ◌≡◌, refl, Bool, false, Option, none, some, [], ◌∷◌, arith, Map, lookup, lookup-delete,
  Unique, ltb, if◌then◌else◌, bytes_eq, bytes_beq_iff, ◌==◌,
}
use pbft_block.Text.{Str}
use pbft_block.Worker.{Worker, cancel_consensus}
use pbft_block.Pool.{delete_pvb_and_beats_by_hash}
use pbft_block.Mining.{expire, expire_all, expire_one}

-- What stays of a time: nothing if it is overdue.
abbrev pub unless_overdue : ℕ → ℕ → Option ℕ → Option ℕ
unless_overdue now lifetime none = none
unless_overdue now lifetime (some t) = if ltb lifetime (now - t) then none else some t

lookup-expire_one :
    (now : ℕ) (id h : Str) (beat : ℕ) (s : Worker × Bool)
    → (lookup h (expire_one now id beat s).0.blockbeats ≡ (
        if ltb s.0.max_consensus_lifetime (now - beat)
        then (if h == id then none else lookup h s.0.blockbeats)
        else lookup h s.0.blockbeats))
      × ((expire_one now id beat s).0.max_consensus_lifetime ≡ s.0.max_consensus_lifetime)
unfolding expire_one delete_pvb_and_beats_by_hash
lookup-expire_one now id h beat s = ground (arith, lookup-delete id h s.0.blockbeats)

-- Every entry of the walk that is overdue loses its hash.
abbrev walked : ℕ → ℕ → Option ℕ → Option ℕ → Option ℕ
walked now lifetime none kept = kept
walked now lifetime (some t) kept = if ltb lifetime (now - t) then none else kept

lookup-expire_all :
    (now : ℕ) (h : Str) (beats : Map Str ℕ) (s : Worker × Bool)
    → Unique beats
    → lookup h (expire_all now beats s).0.blockbeats
      ≡ walked now s.0.max_consensus_lifetime (lookup h beats) (lookup h s.0.blockbeats)
unfolding expire_all lookup
lookup-expire_all now h [] s u = refl
lookup-expire_all now h ((id, beat) ∷ beats) s u = ground (
  arith,
  bytes_beq_iff h id,
  bytes_beq_iff id h,
  lookup-expire_one now id h beat s,
  lookup-expire_all now h beats (expire_one now id beat s) u.1,
)

-- One round of the expiry loop, over times with no hash twice, takes out exactly the times that
-- are older than the lifetime of a consensus; the others stay as they are.
pub lookup-expire :
    (now : ℕ) (h : Str) (w : Worker)
    → Unique w.blockbeats
    → lookup h (expire now w).blockbeats
      ≡ unless_overdue now w.max_consensus_lifetime (lookup h w.blockbeats)
unfolding expire cancel_consensus
lookup-expire now h w u = ground (arith, lookup-expire_all now h w.blockbeats (w, false) u)
