-- ===== src/Dynamic/Operation.antt =====
-- dynamic/Operation.hpp. `Operations` is `std::vector<Ref<Operation>>`; the struct `Mod` is
-- `mod_op`.
use sqlgen.Prelude.{Bool, List, Option}
use sqlgen.Dynamic.Types.{SqlType, Column}
use sqlgen.Dynamic.Value.{Duration, Value}

mutual
  pub data Operation : Type 0 where
    abs : Operation → Operation
    aggregation : Aggregation → Operation
    cast : Operation → SqlType → Operation
    ceil : Operation → Operation
    column : Column → Operation
    coalesce : Operations → Operation
    concat : Operations → Operation
    cos : Operation → Operation
    date_plus_duration : Operation → List Duration → Operation
    day : Operation → Operation
    days_between : Operation → Operation → Operation
    divides : Operation → Operation → Operation
    exp : Operation → Operation
    floor : Operation → Operation
    hour : Operation → Operation
    length : Operation → Operation
    ln : Operation → Operation
    log2 : Operation → Operation
    lower : Operation → Operation
    ltrim : Operation → Operation → Operation
    month : Operation → Operation
    minus : Operation → Operation → Operation
    minute : Operation → Operation
    mod_op : Operation → Operation → Operation
    multiplies : Operation → Operation → Operation
    plus : Operation → Operation → Operation
    replace : Operation → Operation → Operation → Operation
    round : Operation → Operation → Operation
    rtrim : Operation → Operation → Operation
    second : Operation → Operation
    sin : Operation → Operation
    sqrt : Operation → Operation
    tan : Operation → Operation
    trim : Operation → Operation → Operation
    unixepoch : Operation → Operation
    upper : Operation → Operation
    value : Value → Operation
    weekday : Operation → Operation
    year : Operation → Operation

  pub data Aggregation : Type 0 where
    avg : Operation → Aggregation
    count : Option Column → Bool → Aggregation
    max : Operation → Aggregation
    min : Operation → Aggregation
    sum : Operation → Aggregation

  pub data Operations : Type 0 where
    nil : Operations
    cons : Operation → Operations → Operations
