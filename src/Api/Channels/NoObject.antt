-- ===== src/Api/Channels/NoObject.antt =====
-- A configuration that is JSON, but no object, is not answered with an error page.
