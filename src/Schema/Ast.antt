-- ===== src/Schema/Ast.antt =====
-- rdb-analyzer/src/schema/grammar/ast.rs: the parsed schema. An identifier is its text.
use refine_db.Prelude.{String, Bytes, List}
use refine_db.Prelude.Int.{ℤ}

pub data Literal : Type 0 where
  integer : ℤ → Literal
  string : String → Literal
  bytes : Bytes → Literal

pub record Annotation : Type 0 where
  pub name : String
  pub args : List Literal

mutual
  pub data TypeExpr : Type 0 where
    unit : String → TypeExpr
    specialize : String → TypeExprs → TypeExpr

  pub data TypeExprs : Type 0 where
    no_expr : TypeExprs
    expr : TypeExpr → TypeExprs → TypeExprs

pub record TypeField : Type 0 where
  pub annotations : List Annotation
  pub name : String
  pub value : TypeExpr

pub record TypeItem : Type 0 where
  pub name : String
  pub generics : List String
  pub fields : List TypeField

pub record ExportItem : Type 0 where
  pub ty : TypeExpr
  pub table_name : String

pub data SchemaItem : Type 0 where
  type_item : TypeItem → SchemaItem
  export_item : ExportItem → SchemaItem
