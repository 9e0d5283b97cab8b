-- ===== src/Events/Routes.antt =====
-- The objects that a controller creates carry its label: their events reach that controller alone.
