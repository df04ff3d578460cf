-- ===== src/Store/Mutation.antt =====
-- src/store/mutation.h
use key_value_store.Common.{Bool, Bytes}

pub record Mutation : Type 0 where
  pub erase : Bool
  pub key : Bytes
  pub value : Bytes
