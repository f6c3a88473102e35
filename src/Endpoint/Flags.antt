-- ===== src/Endpoint/Flags.antt =====
-- What setting or clearing one flag of a byte does to the flags, from a table of all bytes.
use Prim.Native.Nat.{bit_and}
use ddns.Prelude.{ℕ, ◌<◌, ◌≡◌, refl, arith, Bool, true, false, ◌&&◌, not, ltb, ltb→lt, ◌==◌}
use ddns.Prelude.{if◌then◌else◌, and-eq-true}
use ddns.Bits.{all_below, all_below_sound}
use ddns.Endpoint.Defs.{
  flag_family, flag_main, flag_clustered, flag_nat, flag_load, flag_signed, has, set_flag,
}

abbrev same : Bool → Bool → Bool
same true b = b
same false b = not b

same_sound : (a b : Bool) → same a b ≡ true → a ≡ b
same_sound a b h = ground arith

-- `is_signed` on the flags.
abbrev pub signed : ℕ → Bool
signed flags = bit_and flags flag_signed == flag_signed

-- The flags of `x` once `flag` is set to `on`, read as the parser reads them.
pub record Kept (x flag : ℕ) (on : Bool) : Type 0 where
  pub fits : set_flag x flag on < 256
  pub family :
      has (set_flag x flag on) flag_family ≡ (if flag == flag_family then on else has x flag_family)
  pub clustered :
      has (set_flag x flag on) flag_clustered
      ≡ (if flag == flag_clustered then on else has x flag_clustered)
  pub nat : has (set_flag x flag on) flag_nat ≡ (if flag == flag_nat then on else has x flag_nat)
  pub load :
      has (set_flag x flag on) flag_load ≡ (if flag == flag_load then on else has x flag_load)
  pub sign : signed (set_flag x flag on) ≡ (if flag == flag_signed then on else signed x)

unfoldable check : ℕ → Bool → ℕ → Bool
check flag on x =
    ltb (set_flag x flag on) 256
    && (same (has (set_flag x flag on) flag_family)
          (if flag == flag_family then on else has x flag_family)
        && (same (has (set_flag x flag on) flag_clustered)
              (if flag == flag_clustered then on else has x flag_clustered)
            && (same (has (set_flag x flag on) flag_nat)
                  (if flag == flag_nat then on else has x flag_nat)
                && (same (has (set_flag x flag on) flag_load)
                      (if flag == flag_load then on else has x flag_load)
                    && same (signed (set_flag x flag on))
                        (if flag == flag_signed then on else signed x)))))

check_sound : (flag : ℕ) (on : Bool) (x : ℕ) → check flag on x ≡ true → Kept x flag on
unfolding check
check_sound flag on x h =
    let (a, h) = and-eq-true _ _ h in
    let (b, h) = and-eq-true _ _ h in
    let (c, h) = and-eq-true _ _ h in
    let (d, h) = and-eq-true _ _ h in
    let (e, f) = and-eq-true _ _ h in
    record {
      fits = ltb→lt _ _ a;
      family = same_sound _ _ b;
      clustered = same_sound _ _ c;
      nat = same_sound _ _ d;
      load = same_sound _ _ e;
      sign = same_sound _ _ f;
    }

module _ (x : ℕ) (small : x < 256) where
  from_table : (flag : ℕ) (on : Bool) → all_below 256 (check flag on) ≡ true → Kept x flag on
  from_table flag on h = check_sound flag on x (all_below_sound 256 (check flag on) x h small)

  pub main-Kept : (on : Bool) → Kept x flag_main on
  unfolding all_below check
  main-Kept true = from_table flag_main true refl
  main-Kept false = from_table flag_main false refl

  pub clustered-Kept : (on : Bool) → Kept x flag_clustered on
  unfolding all_below check
  clustered-Kept true = from_table flag_clustered true refl
  clustered-Kept false = from_table flag_clustered false refl

  pub load-Kept : (on : Bool) → Kept x flag_load on
  unfolding all_below check
  load-Kept true = from_table flag_load true refl
  load-Kept false = from_table flag_load false refl

  pub signed-Kept : (on : Bool) → Kept x flag_signed on
  unfolding all_below check
  signed-Kept true = from_table flag_signed true refl
  signed-Kept false = from_table flag_signed false refl
