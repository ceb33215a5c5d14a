-- ===== src/Maze/Params.antt =====
-- The inputs of generation and their validation: internal/maze/params.go and island.go's islandTarget.
-- A share is a value of shopspring/decimal, which is not code of the repository: the type D and the
-- operations of it that the package calls are parameters.
use lab_game.Prelude.{ℕ, Bool, ◌||◌, ◌==◌, if◌then◌else◌, List, Option, none, some}
use lab_game.Prelude.Int.{ℤ, pos, pos_part, ◌+ℤ◌, ◌-ℤ◌, ◌*ℤ◌, ltb_ℤ, wrap64}
use lab_game.Hexgrid.Lattice.{Lattice, cell_count}
use lab_game.Maze.Draw.{total_of}

-- The operations of decimal.Decimal, and the values half and twoPow32 built with them.
pub record DecimalOps (D : Type 0) : Type 0 where
  pub zero_share : D
  pub one_share : D
  pub half : D
  pub two_pow32 : D
  pub from_int : ℤ → D
  pub mul : D → D → D
  pub plus : D → D → D
  pub less_than : D → D → Bool
  pub ceil : D → D
  pub floor : D → D
  pub int_part : D → ℤ

abbrev pub min_radius : ℤ
min_radius = pos 6

pub record Params (D : Type 0) : Type 0 where
  pub radius : ℤ
  pub weights : List ℕ
  pub island_share : D
  pub extra_passage_share : D
  pub growing_tree_bias : D
  pub portal_share_lower : D
  pub portal_share_upper : D

-- The inputs that validate names in its errors.
pub data ParamsError : Type 0 where
  small_radius no_weight bad_island_share bad_extra_share bad_bias bad_lower bad_upper : ParamsError
  lower_above_upper no_portal too_many_portals too_many_islands : ParamsError

unfoldable pub non_border_cell_count : ℤ → ℤ
non_border_cell_count radius =
    let r = radius -ℤ pos 1 in
    if ltb_ℤ r (pos 0) then pos 0 else wrap64 (pos 3 *ℤ r *ℤ r +ℤ pos 3 *ℤ r +ℤ pos 1)

unfoldable pub gate_capacity : ℤ → ℤ
unfolding non_border_cell_count
gate_capacity radius =
    let capacity = non_border_cell_count radius -ℤ pos 1 in
    if ltb_ℤ capacity (pos 0) then pos 0 else capacity

module _ {D : Type 0} where
  unfoldable pub ceil_share : DecimalOps D → D → ℕ → ℤ
  ceil_share ops share l = ops.int_part (ops.ceil (ops.mul share (ops.from_int (pos l))))

  unfoldable pub portal_bounds : DecimalOps D → D → D → ℕ → ℤ × ℤ
  unfolding ceil_share
  portal_bounds ops lower upper l = (ceil_share ops lower l, ceil_share ops upper l)

  unfoldable pub round_half_up : DecimalOps D → D → ℤ
  round_half_up ops x = ops.int_part (ops.floor (ops.plus x ops.half))

  unfoldable pub bias_threshold : DecimalOps D → D → ℕ
  bias_threshold ops bias = pos_part (ops.int_part (ops.floor (ops.mul bias ops.two_pow32)))

  abbrev pub lattice_of : Params D → Lattice
  lattice_of p = record { radius = p.radius }

  unfoldable pub island_target : DecimalOps D → Params D → ℤ
  unfolding round_half_up
  island_target ops p =
      round_half_up ops (ops.mul p.island_share (ops.from_int (cell_count (lattice_of p))))

  unfoldable pub bad_share : DecimalOps D → D → Bool
  bad_share ops v = ops.less_than v ops.zero_share || ops.less_than ops.one_share v

  -- `none` is Go's nil. The tests stand in the source's order.
  unfoldable pub validate : DecimalOps D → Params D → Option ParamsError
  unfolding bad_share portal_bounds gate_capacity island_target
  validate ops p =
      let border_length = pos_part (pos 2 *ℤ p.radius +ℤ pos 1) in
      let bounds = portal_bounds ops p.portal_share_lower p.portal_share_upper border_length in
      if ltb_ℤ p.radius min_radius
      then some small_radius
      else (if total_of p.weights 0 == 0
          then some no_weight
          else (if bad_share ops p.island_share
              then some bad_island_share
              else (if bad_share ops p.extra_passage_share
                  then some bad_extra_share
                  else (if bad_share ops p.growing_tree_bias
                      then some bad_bias
                      else (if bad_share ops p.portal_share_lower
                          then some bad_lower
                          else (if bad_share ops p.portal_share_upper
                              then some bad_upper
                              else (if ops.less_than p.portal_share_upper p.portal_share_lower
                                  then some lower_above_upper
                                  else (if ltb_ℤ bounds.0 (pos 1)
                                      then some no_portal
                                      else (if ltb_ℤ (p.radius +ℤ pos 1) bounds.1
                                          then some too_many_portals
                                          else (if ltb_ℤ (gate_capacity p.radius)
                                                (island_target ops p)
                                              then some too_many_islands
                                              else none))))))))))
