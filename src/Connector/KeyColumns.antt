-- ===== src/Connector/KeyColumns.antt =====
-- connector/crosssignalconnector/join.go: the columns on which two tables are joined.
use opentelemetry_querier.Base.{
  String, Option, none, some, List, [], ◌∷◌, is_nil, contains, sort_texts, if◌then◌else◌,
}
use opentelemetry_querier.Qerror.{Error, Outcome, ok, err, coded, invalid_argument}
use opentelemetry_querier.Qdata.Plan.{VectorMatch}
use opentelemetry_querier.Qdata.Result.{Table}

-- `removeAll`
unfoldable pub remove_all : List String → List String → List String
remove_all [] drop = []
remove_all (value ∷ values) drop =
    let rest = remove_all values drop in if contains drop value then rest else value ∷ rest

-- the loop of `sharedColumns`
unfoldable pub shared_with : List String → List String → List String
shared_with [] right = []
shared_with (column ∷ columns) right =
    let rest = shared_with columns right in if contains right column then column ∷ rest else rest

-- `sharedColumns`
unfoldable pub shared_columns : Table → Table → List String
unfolding sort_texts shared_with
shared_columns left right = sort_texts (shared_with left.columns right.columns)

abbrev pub on_columns : Option VectorMatch → List String
on_columns none = []
on_columns (some m) = m.on

abbrev pub ignored : Option VectorMatch → List String
ignored none = []
ignored (some m) = m.ignoring

abbrev pub no_key : Error
no_key =
    coded invalid_argument
      "crosssignalconnector: no join key (sides share no columns after `ignoring`, and no `on` was given)"

-- `resolveKeys`; removing an empty list of labels removes nothing.
unfoldable pub resolve_keys : Table → Table → Option VectorMatch → Outcome (List String)
unfolding shared_columns remove_all
resolve_keys left right matching =
    if is_nil (on_columns matching)
    then (let keys = remove_all (shared_columns left right) (ignored matching) in
        if is_nil keys then err no_key else ok keys)
    else ok (on_columns matching)
