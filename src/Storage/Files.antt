-- ===== src/Storage/Files.antt =====
-- The files that class StorageManager of models/storage.py writes. A path is known by what it is
-- built from; directories are not modelled.
use mai_bot_trpg_plugin.Prelude.{
  ℕ, String, ◌≡◌, ◌↔◌, Bool, true, false, ◌&&◌, Option, arith, Eq, ◌==◌, string_eq, nat_eq, eq_iff,
}
use mai_bot_trpg_plugin.Prelude.Dict.{Dict}
use mai_bot_trpg_plugin.Json.{Value}

pub data FilePath : Type 0 where
  enabled_groups : FilePath
  session_file : (stream_id : String) → FilePath
  player_file : (stream_id user_id : String) → FilePath
  slot_file : (safe_id : String) (slot : ℕ) → FilePath

unfoldable pub path_beq : FilePath → FilePath → Bool
path_beq enabled_groups enabled_groups = true
path_beq (session_file a) (session_file b) = a == b
path_beq (player_file a u) (player_file b v) = a == b && u == v
path_beq (slot_file a m) (slot_file b n) = a == b && m == n
path_beq _ _ = false

pub path_beq_iff : (p q : FilePath) → (path_beq p q ≡ true) ↔ (p ≡ q)
unfolding path_beq
path_beq_iff enabled_groups q = (λ e. ground arith, λ e. ground arith)
path_beq_iff (session_file a) (session_file b) =
    (λ e. ground (arith, eq_iff a b), λ e. ground (arith, eq_iff a b))
path_beq_iff (session_file a) q = (λ e. ground arith, λ e. ground arith)
path_beq_iff (player_file a u) (player_file b v) =
    (λ e. ground (arith, eq_iff a b, eq_iff u v), λ e. ground (arith, eq_iff a b, eq_iff u v))
path_beq_iff (player_file a u) q = (λ e. ground arith, λ e. ground arith)
path_beq_iff (slot_file a m) (slot_file b n) =
    (λ e. ground (arith, eq_iff a b), λ e. ground (arith, eq_iff a b))
path_beq_iff (slot_file a m) q = (λ e. ground arith, λ e. ground arith)

instance abbrev pub path_eq : Eq FilePath
path_eq = record { beq = path_beq; beq_iff = path_beq_iff }

-- `none` is a file whose text is no JSON.
abbrev pub Files : Type 0
Files = Dict FilePath (Option Value)
