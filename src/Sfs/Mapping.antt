-- ===== src/Sfs/Mapping.antt =====
-- `sfs_bmap` as a whole.
