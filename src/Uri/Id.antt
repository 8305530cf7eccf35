-- ===== src/Uri/Id.antt =====
-- The place of the number of a token in an address of metadata.
