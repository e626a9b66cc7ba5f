-- ===== src/Di/Descriptors.antt =====
-- crates/di/src/descriptors/component.rs: what a component declares of the traits that it provides.
-- An `i64` priority is kept as its distance from the least `i64`; the erasing function is left out.
use overseerd.Base.{ℕ, Bool, List, Text}

-- `TypeDescriptor`, of crates/core/src/types.rs
pub record TypeDescriptor : Type 0 where
  pub name : Text
  pub type_name : Text
  pub type_id : ℕ

-- `ProviderOrderDirection`, `ProviderOrder` and `ProviderDescriptor`
pub data ProviderOrderDirection : Type 0 where
  before after : ProviderOrderDirection

pub record ProviderOrder : Type 0 where
  pub target : TypeDescriptor
  pub traits : List TypeDescriptor
  pub direction : ProviderOrderDirection

pub record ProviderDescriptor : Type 0 where
  pub trait_ty : TypeDescriptor
  pub concrete_ty : TypeDescriptor
  pub qualifier : Text
  pub primary : Bool
  pub priority : ℕ
  pub ordering : List ProviderOrder
