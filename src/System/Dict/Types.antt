-- ===== src/System/Dict/Types.antt =====
-- The parameters of the dictionary service.
use snowgo.Prelude.{ℕ, String, Option}

pub record DictParam : Type 0 where
  pub id : ℕ
  pub code : String
  pub name : String
  pub description : Option String

pub record DictItemParam : Type 0 where
  pub id : ℕ
  pub dict_id : ℕ
  pub item_name : String
  pub item_code : String
  pub status : Option String
  pub sort_order : ℕ
  pub description : Option String
