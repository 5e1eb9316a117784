-- ===== src/TransportFiles.antt =====
-- The files of src/transport_files.c, which the transport sends. Their users are not counted: memory
-- is left out. A blob's size is the number of its bytes.
use info_logger.Base.{
  Bool, true, false, List, [], Option, none, ltb_ℤ, leb_ℤ, if◌then◌else◌, ℕ, ℤ, pos, minus_one,
}
use info_logger.CText.{Bytes}

-- `TR_file_id` without what the server adds.
pub record FileId : Type 0 where
  pub source : Option Bytes
  pub maj_id : ℤ
  pub min_id : ℤ

-- `TR_file`; `address` is where the structure stands.
pub record TransportFile : Type 0 where
  pub address : ℕ
  pub id : FileId
  pub blobs : List Bytes
  pub size : ℤ
  pub path : Option Bytes

-- `TR_file_id_compare`, which takes its numbers only.
unfoldable pub file_id_compare : ℤ → ℤ → ℤ → ℤ → Bool
file_id_compare maj1 min1 maj2 min2 =
    if ltb_ℤ maj1 maj2
    then false
    else if ltb_ℤ maj2 maj1
    then true
    else if leb_ℤ min1 min2
    then false
    else true

-- `TR_file_new`
abbrev pub file_new : ℕ → TransportFile
file_new address = record {
  address = address;
  id = record { source = none; maj_id = minus_one; min_id = minus_one };
  blobs = [];
  size = pos 0;
  path = none;
}
