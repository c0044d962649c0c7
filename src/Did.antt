-- ===== src/Did.antt =====
-- The data identifier table of src/did_table.c and include/did_table.h. A callback is named by a
-- constructor; Vecu runs them.
pub mod Lookup
pub mod Calls
mod Examples
use vecu_uds.Base.{
  ℕ, zero, suc, ◌+◌, Bool, true, false, List, [], ◌∷◌, Option, none, some, leb, ◌==◌, if◌then◌else◌,
  get_or, set, replicate,
}

-- DID_TABLE_MAX
abbrev pub did_table_max : ℕ
did_table_max = 16

-- The functions that are installed as `did_read_fn` and as `did_write_fn`.
pub data ReadFn : Type 0 where
  app_read_rpm app_read_speed app_read_coolant owner_read : ReadFn

pub data WriteFn : Type 0 where
  owner_write : WriteFn

-- `did_entry_t`; `none` is NULL
pub record DidEntry : Type 0 where
  pub did : ℕ  -- uint16_t
  pub static_data : Option (List ℕ)
  pub static_len : ℕ
  pub read : Option ReadFn
  pub write : Option WriteFn
  pub requires_security : Bool
  pub requires_extended_session : Bool

-- `did_table_t`
pub record DidTable : Type 0 where
  pub entries : List DidEntry
  pub count : ℕ

-- An entry of zero bytes, which is also what a designated initialiser leaves unnamed.
abbrev pub no_entry : DidEntry
no_entry = record {
  did = 0;
  static_data = none;
  static_len = 0;
  read = none;
  write = none;
  requires_security = false;
  requires_extended_session = false;
}

-- did_table_init
unfoldable pub init : DidTable
init = record { entries = replicate did_table_max no_entry; count = 0 }

-- did_table_add; `false` is the return code -1
unfoldable pub add : DidEntry → DidTable → Bool × DidTable
add entry t =
    if leb did_table_max t.count
    then (false, t)
    else (true, record { entries = set t.entries t.count entry; count = t.count + 1 })

-- The loop of `did_table_lookup` with `rounds` iterations left, from index `i`.
unfoldable pub lookup_loop : ℕ → ℕ → List DidEntry → ℕ → Option DidEntry
lookup_loop zero i entries did = none
lookup_loop (suc rounds) i entries did =
    let e = get_or entries i no_entry in
    let rest = lookup_loop rounds (i + 1) entries did in if e.did == did then some e else rest

-- did_table_lookup
unfoldable pub lookup : ℕ → DidTable → Option DidEntry
unfolding lookup_loop
lookup did t = lookup_loop t.count 0 t.entries did
