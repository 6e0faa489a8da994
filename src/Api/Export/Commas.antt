-- ===== src/Api/Export/Commas.antt =====
-- A name with a comma is not read back.
