-- ===== src/Hash/Table/Size.antt =====
-- The sizes of a table: hash_valid_size and hash_alloc of src/hash/hash.c.
use re_cpm.Hash.Table.{Hash}
