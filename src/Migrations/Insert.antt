-- ===== src/Migrations/Insert.antt =====
-- What PostgreSQL tests when a row is inserted.
use bodhrik_fullstack_assess.Common.{
  ℕ, String, Bool, true, false, not, ◌&&◌, ◌||◌, Option, none, some, List, [], ◌∷◌, any, str_eq,
  ltb, leb, if◌then◌else◌,
}
use bodhrik_fullstack_assess.Schemas.Fields.{text_length}
use bodhrik_fullstack_assess.Migrations.Catalog.{
  ColumnType, EnumType, Catalog, Table, Column, Index, Expression, greater, differ, between, Rule,
  primary_key, unique, check, foreign_key,
}
use bodhrik_fullstack_assess.Migrations.Rows.{Value, Row, is_null, equals, row}

-- The two rows agree on all of the columns.
abbrev pub agree : List String → Row → Row → Bool
agree [] x y = true
agree (k ∷ []) x y = equals (x k) (y k)
agree (k ∷ ks) x y = equals (x k) (y k) && agree ks x y

-- `a > b` and `a >= lo AND a <= hi`, where a NULL makes the result NULL
abbrev pub above : Value → Value → Bool
above (Value.instant a) (Value.instant b) = ltb b a
above (Value.integer a) (Value.integer b) = ltb b a
above _ _ = true

abbrev pub within : ℕ → ℕ → Value → Bool
within lo hi (Value.integer a) = leb lo a && leb a hi
within lo hi _ = true

-- an expression that is NULL does not break its CHECK
abbrev pub satisfies : Expression → Row → Bool
satisfies (greater a b) x = above (x a) (x b)
satisfies (differ a b) x = is_null (x a) || (is_null (x b) || not (equals (x a) (x b)))
satisfies (between a lo hi) x = within lo hi (x a)

-- the row `x` may join the rows `xs` of its table
abbrev pub obeys : (String → List Row) → List Row → Row → Rule → Bool
obeys store xs x (primary_key k) = not (any (λ y. equals (y k) (x k)) xs)
obeys store xs x (unique n ks) = not (any (λ y. agree ks y x) xs)
obeys store xs x (check n e) = satisfies e x
obeys store xs x (foreign_key k t c d) = is_null (x k) || any (λ y. equals (y c) (x k)) (store t)

abbrev pub every : {A : Type 0} → (A → Bool) → List A → Bool
every p [] = true
every p (x ∷ xs) = p x && every p xs

abbrev pub find_table : String → List Table → Option Table
find_table n [] = none
find_table n (t ∷ ts) = if str_eq t.name n then some t else find_table n ts

-- a unique index on the table holds nothing back
abbrev pub indexes_allow : List Index → String → List Row → Row → Bool
indexes_allow is n xs x =
    every
      (λ i. not i.is_unique || (not (str_eq i.table n) || not (any (λ y. agree i.columns y x) xs)))
      is

abbrev pub not_nulls : List Column → Row → Bool
not_nulls ks x = every (λ k. k.nullable || not (is_null (x k.name))) ks

abbrev pub has_label : List EnumType → String → String → Bool
has_label ts name label = any (λ t. str_eq t.name name && any (str_eq label) t.labels) ts

-- The column type takes the value as it is. PostgreSQL cuts off spaces past the length of a
-- VARCHAR, so that it would store another text than the one that is given.
abbrev pub fits : List EnumType → ColumnType → Value → Bool
fits ts _ Value.null = true
fits ts ColumnType.uuid (Value.uuid _) = true
fits ts ColumnType.text (Value.word _) = true
fits ts ColumnType.integer (Value.integer n) = ltb n 2147483648
fits ts ColumnType.boolean (Value.truth _) = true
fits ts ColumnType.timestamptz (Value.instant _) = true
fits ts (ColumnType.varchar n) (Value.word t) = leb (text_length t) n
fits ts (ColumnType.enum name) (Value.word label) = has_label ts name label
fits _ _ _ = false

-- a name that no column has is refused
abbrev pub fits_column : List EnumType → List Column → String → Value → Bool
fits_column ts [] n v = false
fits_column ts (k ∷ ks) n v = if str_eq k.name n then fits ts k.type v else fits_column ts ks n v

abbrev pub fields_fit : List EnumType → List Column → List (String × Value) → Bool
fields_fit ts ks [] = true
fields_fit ts ks ((n, v) ∷ fields) = fits_column ts ks n v && fields_fit ts ks fields

-- INSERT INTO the table with values for its columns: their names and types, NOT NULL, the rules of
-- the table and its unique indexes. No default stands in for a column that is not named.
abbrev pub accepts : Catalog → (String → List Row) → String → List (String × Value) → Bool
accepts c store n fields = elim (find_table n c.tables) [
  | none ↦ false
  | some t ↦
      fields_fit c.types t.columns fields
      && (not_nulls t.columns (row fields)
          && (every (obeys store (store n) (row fields)) t.rules
              && indexes_allow c.indexes n (store n) (row fields)))
]
