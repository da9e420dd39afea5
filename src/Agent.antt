-- ===== src/Agent.antt =====
-- src/agent: the persistent WhatsPac agent.
pub mod Script
pub mod Lifecycle
pub mod Dispatch
pub mod Outbound
pub mod Client
