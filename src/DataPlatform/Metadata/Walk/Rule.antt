-- ===== src/DataPlatform/Metadata/Walk/Rule.antt =====
-- The rule of the walk's loop: what every round keeps holds at the end, where nothing waits.
use kafka_order_event_platfo.Prelude.{
  ℕ, zero, suc, String, List, [], ◌∷◌, ◌≡◌, refl, subst, arith, Option-cases, inl, inr, some,
  string_eq,
}
use kafka_order_event_platfo.Dict.{Dict, lookup}
use kafka_order_event_platfo.DataPlatform.Metadata.{AssetMetadata}
use kafka_order_event_platfo.DataPlatform.Metadata.Walk.{
  Direction, neighbours_of, WalkState, expand, rounds, walked,
}

module _ {ℓ} (assets : Dict String AssetMetadata) (d : Direction) (max_depth : ℕ)
    (P : WalkState → Type ℓ)
    (keep : (s : WalkState) (current : String) (depth : ℕ) (rest : List (String × ℕ))
        (a : AssetMetadata)
      → s.frontier ≡ (current, depth) ∷ rest
      → lookup current assets ≡ some a
      → P s
      → P (
          expand assets d max_depth current depth
            (neighbours_of d a)
            (record s { frontier = rest }))) where
  pub rounds_rule :
      (fuel : ℕ) (s : WalkState) (l : List (String × ℕ)) (t : WalkState)
      → s.frontier ≡ l
      → P s
      → rounds assets d max_depth fuel s l ≡ walked t
      → P t × (t.frontier ≡ [])
  unfolding rounds
  rounds_rule fuel s [] t e p h =
      let same : s ≡ t = ground (arith, h) in (subst P same p, ground (arith, e, same))
  rounds_rule zero s (x ∷ l) t e p h = absurd (ground (arith, h))
  rounds_rule (suc fuel) s ((current, depth) ∷ rest) t e p h =
      elim (Option-cases (lookup current assets)) [
        | inl missing ↦ absurd (ground (arith, h, missing))
        | inr (a, found) ↦
            let u =
              expand assets d max_depth current depth (neighbours_of d a)
                (record s { frontier = rest }) in
            rounds_rule fuel u u.frontier t refl (keep s current depth rest a e found p)
              (ground (arith, h, found))
      ]
