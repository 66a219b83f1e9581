-- ===== src/Collections.antt =====
-- What the code uses of the standard library's maps: a `BTreeMap` on `i64` keys as an association
-- list in the order of its keys, and a `HashMap` on `u64` keys as an association list.
pub mod TreeMap
pub mod HashMap
