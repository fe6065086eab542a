-- ===== src/World/Distance.antt =====
-- `Position::manhattanDistance`: the metric that targets are chosen by.
use dungeon_crawler.Base.{
  ℤ, pos, negsuc, pos_part, neg_part, ◌+ℤ◌, eq_of_parts, ℕ, ◌+◌, ◌^◌, ◌≤◌, ◌<◌, min, ◌≡◌, ap, ◌∙◌,
  ◌↔◌, arith,
}
use dungeon_crawler.World.Position.{
  max_u64, IsInt64, Position, IsPosition, manhattan_distance, pos_add,
  position_offset_from_direction,
}
use dungeon_crawler.World.Position.Saturation.{
  clamp_i64, abs_diff, delta-abs_diff, add_u64-min, pos_add_saturates,
}
use dungeon_crawler.Types.Direction.{Direction, up}

-- |dx| + |dy|, without a bound
unfoldable pub manhattan : Position → Position → ℕ
unfolding abs_diff
manhattan p q = abs_diff p.x q.x + abs_diff p.y q.y

abs_diff-lt : (a b : ℤ) → IsInt64 a → IsInt64 b → abs_diff a b < 2 ^ 64
unfolding abs_diff
abs_diff-lt a b ha hb = omega arith

flipped : (p q : Position) → abs_diff q.x p.x + abs_diff q.y p.y ≡ manhattan p q
unfolding manhattan abs_diff
flipped p q = omega arith

-- The distance is |dx| + |dy|, or the largest value of uint64_t where that is larger; no step wraps.
pub manhattan_distance-min :
    (p q : Position)
    → IsPosition p
    → IsPosition q
    → manhattan_distance p q ≡ min max_u64 (manhattan p q)
unfolding manhattan_distance manhattan
manhattan_distance-min p q hp hq =
    let dx = delta-abs_diff q.x p.x hq.0 hp.0 in
    let dy = delta-abs_diff q.y p.y hq.1 hp.1 in
    rw (dx, dy)
      (add_u64-min (abs_diff q.x p.x) (abs_diff q.y p.y) (abs_diff-lt q.x p.x hq.0 hp.0)
          (abs_diff-lt q.y p.y hq.1 hp.1)
        ∙ ap (min max_u64) (flipped p q))

manhattan_metric :
    (p q r : Position)
    → (manhattan p q ≡ manhattan q p)
      × ((manhattan p q ≡ 0) ↔ (p ≡ q))
      × (manhattan p r ≤ manhattan p q + manhattan q r)
unfolding manhattan abs_diff
manhattan_metric p q r = (
  omega arith,
  (
    λ e.
        let ex = eq_of_parts p.x q.x (omega arith) in
        let ey = eq_of_parts p.y q.y (omega arith) in λ i. record { x = ex i; y = ey i },
    λ e. rw e (omega arith),
  ),
  omega arith,
)

-- The distance is a metric: symmetric, zero between equal positions only, and with the triangle
-- inequality, also where it is cut off at the largest value.
pub manhattan_distance_metric :
    (p q r : Position)
    → IsPosition p
    → IsPosition q
    → IsPosition r
    → (manhattan_distance p q ≡ manhattan_distance q p)
      × ((manhattan_distance p q ≡ 0) ↔ (p ≡ q))
      × (manhattan_distance p r ≤ manhattan_distance p q + manhattan_distance q r)
manhattan_distance_metric p q r hp hq hr =
    let pq = manhattan_distance-min p q hp hq in
    let qp = manhattan_distance-min q p hq hp in
    let pr = manhattan_distance-min p r hp hr in
    let qr = manhattan_distance-min q r hq hr in
    let (comm, zero_only, triangle) = manhattan_metric p q r in
    (
      omega (arith, pq, qp, comm),
      (λ e. zero_only.0 (omega (arith, pq, e)), λ e. omega (arith, pq, zero_only.1 e)),
      omega (arith, pr, pq, qr, triangle),
    )

offset-IsPosition : (d : Direction) → IsPosition (position_offset_from_direction d)
unfolding position_offset_from_direction
offset-IsPosition up = omega arith
offset-IsPosition _ = omega arith

-- On an axis a step moves by no more than its own length, also at the end of the type.
clamped_step : (a k : ℤ) → IsInt64 a → abs_diff a (clamp_i64 (k +ℤ a)) ≤ pos_part k + neg_part k
unfolding abs_diff clamp_i64 ◌+ℤ◌
clamped_step (pos m) (pos n) h = ground arith
clamped_step (pos m) (negsuc n) h = ground arith
clamped_step (negsuc m) (pos n) h = ground arith
clamped_step (negsuc m) (negsuc n) h = ground arith

offset_length :
    (d : Direction)
    → let o = position_offset_from_direction d in
      pos_part o.x + neg_part o.x + (pos_part o.y + neg_part o.y) ≤ 1
unfolding position_offset_from_direction
offset_length up = omega arith
offset_length _ = omega arith

-- One step in any direction moves a position by a distance of at most one.
pub step_distance :
    (p : Position) (d : Direction)
    → IsPosition p
    → manhattan_distance p (pos_add p (position_offset_from_direction d)) ≤ 1
unfolding manhattan
step_distance p d hp =
    let o = position_offset_from_direction d in
    let (sum, _, fits, _) = pos_add_saturates p o hp (offset-IsPosition d) in
    let near_x = clamped_step p.x o.x hp.0 in
    let near_y = clamped_step p.y o.y hp.1 in
    let d_sum = ap (manhattan p) sum in
    omega (
      arith,
      manhattan_distance-min p (pos_add p o) hp fits,
      d_sum,
      near_x,
      near_y,
      offset_length d,
    )
